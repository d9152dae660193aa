-- ===== src/Port/Laws.antt =====
-- What the story use case may rely on of a StoryRepo, in terms of three views of its state: all
-- episodes, the episode of an id, and the ids that a player has completed.
use overload_party_scenario.Common.{
  String, ◌≡◌, ◌⊎◌, Bool, true, ◌&&◌, Option, none, some, List, contains, count_if, Ordered,
}
use overload_party_scenario.Common.Int.{leb_ℤ}
use overload_party_scenario.Errors.{Error, ok, err, port, PortError, is}
use overload_party_scenario.Domain.{Episode}
use overload_party_scenario.Port.{StoryRepo}

abbrev pub by_sort_order : Episode → Episode → Bool
by_sort_order a b = leb_ℤ a.sort_order b.sort_order

pub record StoryRepoLaws {S : Type 0} (R : StoryRepo S) : Type 0 where
  pub stored : S → List Episode
  pub found : S → String → Option Episode
  pub completed : S → String → List String
  -- Reads change nothing.
  pub list_reads : (s : S) → (R.list_active_episodes s).1 ≡ s
  pub find_reads : (id : String) (s : S) → (R.find_episode_by_id id s).1 ≡ s
  pub completed_reads : (p : String) (s : S) → (R.get_completed_episode_ids p s).1 ≡ s
  -- A read that succeeds tells the view: of the list, the active ones of the episodes, each as often
  -- as it is stored, ordered by `sort_order`.
  pub list-eq-ok :
      (s : S) (eps : List Episode)
      → (R.list_active_episodes s).0 ≡ ok eps
      → Ordered by_sort_order eps
        × ((p : Episode → Bool) → count_if p eps ≡ count_if (λ ep. ep.is_active && p ep) (stored s))
  pub find-eq-ok :
      (id : String) (s : S) (ep : Episode)
      → (R.find_episode_by_id id s).0 ≡ ok ep
      → found s id ≡ some ep
  pub find-eq-not_found :
      (id : String) (s : S) (e : Error)
      → (R.find_episode_by_id id s).0 ≡ err e
      → is e (port PortError.not_found) ≡ true
      → found s id ≡ none
  pub completed-eq-ok :
      (p : String) (s : S) (ids : List String)
      → (R.get_completed_episode_ids p s).0 ≡ ok ids
      → ids ≡ completed s p
  -- A completion that succeeds is recorded.
  pub mark-eq-ok :
      (p id : String) (s : S)
      → (R.mark_complete p id s).0 ≡ ok tt
      → contains (completed (R.mark_complete p id s).1 p) id ≡ true
  -- Whatever the call reports, it loses no completion, records no other, and changes no episode.
  pub mark_keeps :
      (p id : String) (s : S) (q k : String)
      → contains (completed s q) k ≡ true
      → contains (completed (R.mark_complete p id s).1 q) k ≡ true
  pub mark_only :
      (p id : String) (s : S) (q k : String)
      → contains (completed (R.mark_complete p id s).1 q) k ≡ true
      → (contains (completed s q) k ≡ true) ⊎ ((p ≡ q) × (id ≡ k))
  pub mark-found :
      (p id : String) (s : S) (k : String) → found (R.mark_complete p id s).1 k ≡ found s k
