-- ===== src/Fakes/Store.antt =====
-- The store of the channels' queues.
use overload_party_scenario.Common.{
  ℕ, zero, suc, ◌<◌, ◌≤◌, ◌≡◌, ◌≢◌, refl, List, [], ◌∷◌, ◌++◌, length, arith,
}
use overload_party_scenario.ApiScenario.{Payload}

-- The messages in a channel, the oldest first.
abbrev pub Queue : Type 0
Queue = List Payload

-- A place outside the store holds no messages.
abbrev pub get_queue : ℕ → List Queue → Queue
get_queue n [] = []
get_queue zero (q ∷ qs) = q
get_queue (suc n) (q ∷ qs) = get_queue n qs

abbrev pub set_queue : ℕ → Queue → List Queue → List Queue
set_queue n q [] = []
set_queue zero q (old ∷ qs) = q ∷ qs
set_queue (suc n) q (old ∷ qs) = old ∷ set_queue n q qs

pub length-set_queue : (n : ℕ) (q : Queue) (qs : List Queue) → length (set_queue n q qs) ≡ length qs
length-set_queue n q [] = refl
length-set_queue zero q (old ∷ qs) = refl
length-set_queue (suc n) q (old ∷ qs) = rw (length-set_queue n q qs) refl

pub get-set_queue_same :
    (n : ℕ) (q : Queue) (qs : List Queue) → n < length qs → get_queue n (set_queue n q qs) ≡ q
get-set_queue_same n q [] h = absurd (omega arith)
get-set_queue_same zero q (old ∷ qs) h = refl
get-set_queue_same (suc n) q (old ∷ qs) h = get-set_queue_same n q qs (omega arith)

pub get-set_queue_other :
    (n m : ℕ) (q : Queue) (qs : List Queue)
    → n ≢ m
    → get_queue m (set_queue n q qs) ≡ get_queue m qs
get-set_queue_other n m q [] h = refl
get-set_queue_other zero zero q (old ∷ qs) h = absurd (h refl)
get-set_queue_other zero (suc m) q (old ∷ qs) h = refl
get-set_queue_other (suc n) zero q (old ∷ qs) h = refl
get-set_queue_other (suc n) (suc m) q (old ∷ qs) h =
    get-set_queue_other n m q qs (λ e. h (omega arith))

-- A new place at the end of the store.
pub get_queue-append : (n : ℕ) (qs : List Queue) → get_queue n (qs ++ ([] ∷ [])) ≡ get_queue n qs
get_queue-append zero [] = refl
get_queue-append (suc n) [] = refl
get_queue-append zero (q ∷ qs) = refl
get_queue-append (suc n) (q ∷ qs) = get_queue-append n qs

pub get_queue-outside : (n : ℕ) (qs : List Queue) → length qs ≤ n → get_queue n qs ≡ []
get_queue-outside n [] h = refl
get_queue-outside zero (q ∷ qs) h = absurd (omega arith)
get_queue-outside (suc n) (q ∷ qs) h = get_queue-outside n qs (omega arith)
