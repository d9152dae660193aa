-- ===== src/Presenter/Episodes.antt =====
-- The wire form of an episode's status loses nothing of the reasons, and never panics on them.
use overload_party_scenario.Common.{
  String, ◌≡◌, ◌↔◌, refl, true, none, some, List, [], ◌∷◌, ◌++◌, map, arith, length, length-eq-zero,
  eqb, if◌then◌else◌, sym,
}
use overload_party_scenario.Common.Int.{ℤ, ltb_ℤ}
use overload_party_scenario.Errors.{Result, ok, err, panic, ◌>>=◌}
use overload_party_scenario.Domain
use overload_party_scenario.Domain.{
  Episode, UnlockContext, level_reason, faction_reason, episode_reason, index, title,
}
use overload_party_scenario.Domain.Unlock.{
  missing, level_part, lock_reasons-eq_unmet, IsMet, lock_reasons-eq-nil_iff,
}
use overload_party_scenario.ApiScenario
use overload_party_scenario.ApiScenario.{EpisodeWithStatus}
use overload_party_scenario.Presenter.{
  to_lock_reason, to_lock_reasons, build_episode_with_status, build_episodes_with_status,
}

-- The wire reasons of the three kinds, each with its own fields only.
abbrev pub wire_level : ℤ → ℤ → ApiScenario.LockReason
wire_level required current = record {
  current_level = some current;
  required_episode = none;
  required_faction = none;
  required_level = some required;
  type = ApiScenario.LockReasonType.level;
}

abbrev pub wire_faction : String → ApiScenario.LockReason
wire_faction f = record {
  current_level = none;
  required_episode = none;
  required_faction = some f;
  required_level = none;
  type = ApiScenario.LockReasonType.faction;
}

abbrev pub wire_episode : String → ApiScenario.LockReason
wire_episode id = record {
  current_level = none;
  required_episode = some id;
  required_faction = none;
  required_level = none;
  type = ApiScenario.LockReasonType.episode;
}

bind-ok {ℓ} : {A : Type ℓ} (m : Result A) → (m >>= λ a. ok a) ≡ m
bind-ok (ok a) = refl
bind-ok (err e) = refl
bind-ok (panic p) = refl

to_lock_reasons-append :
    (xs ys : List Domain.LockReason)
    → to_lock_reasons (xs ++ ys)
      ≡ (to_lock_reasons xs >>= λ us. to_lock_reasons ys >>= λ vs. ok (us ++ vs))
unfolding to_lock_reasons
to_lock_reasons-append [] ys = sym (bind-ok (to_lock_reasons ys))
to_lock_reasons-append (x ∷ xs) ys = ground (arith, to_lock_reasons-append xs ys)

to_lock_reasons-map :
    (f : String → Domain.LockReason) (g : String → ApiScenario.LockReason)
    → ((k : String) → to_lock_reason (f k) ≡ ok (g k))
    → (ks : List String) → to_lock_reasons (map f ks) ≡ ok (map g ks)
unfolding to_lock_reasons
to_lock_reasons-map f g h [] = refl
to_lock_reasons-map f g h (k ∷ ks) = rw (h k, to_lock_reasons-map f g h ks)

abbrev pub wire_level_part : ℤ → ℤ → List ApiScenario.LockReason
wire_level_part required current =
    if ltb_ℤ current required then wire_level required current ∷ [] else []

-- What the player still lacks, in wire form.
abbrev pub wire_reasons : Episode → UnlockContext → List ApiScenario.LockReason
wire_reasons ep uc =
    wire_level_part ep.required_level uc.player_level
    ++ (map wire_faction (missing uc.owned_factions ep.required_factions)
        ++ map wire_episode (missing uc.completed_episodes ep.required_episodes))

to_lock_reasons-level :
    (required current : ℤ)
    → to_lock_reasons (level_part required current) ≡ ok (wire_level_part required current)
unfolding to_lock_reasons to_lock_reason
to_lock_reasons-level required current = ground arith

-- The reasons of an episode are presented without a panic, and as they are.
pub to_lock_reasons-lock_reasons :
    (ep : Episode) (uc : UnlockContext)
    → to_lock_reasons (Domain.lock_reasons ep uc) ≡ ok (wire_reasons ep uc)
to_lock_reasons-lock_reasons ep uc = rw (
  lock_reasons-eq_unmet,
  to_lock_reasons-append,
  to_lock_reasons-level,
  to_lock_reasons-append,
  to_lock_reasons-map faction_reason wire_faction (unfold to_lock_reason in λ k. refl) _,
  to_lock_reasons-map episode_reason wire_episode (unfold to_lock_reason in λ k. refl) _,
)

-- The status of an episode, read off the episode and the snapshot.
abbrev pub status : Episode → UnlockContext → String → EpisodeWithStatus
status ep uc lang = record {
  episode_id = ep.episode_id;
  episode_number = ep.episode_number;
  faction = ep.faction;
  is_completed = index uc.completed_episodes ep.episode_id;
  is_unlocked = eqb (length (Domain.lock_reasons ep uc)) 0;
  lock_reasons = wire_reasons ep uc;
  thumbnail_url = ep.thumbnail_path;
  title = title ep lang;
}

pub build_episode_with_status-eq :
    (ep : Episode) (uc : UnlockContext) (lang : String)
    → build_episode_with_status ep uc lang ≡ ok (status ep uc lang)
unfolding build_episode_with_status
build_episode_with_status-eq ep uc lang = rw to_lock_reasons-lock_reasons

-- Every episode of a list is presented, in order and without a panic, by its own fields, the title
-- in the language asked for, whether it is completed, and the conditions that the player lacks.
pub build_episodes_with_status-eq :
    (eps : List Episode) (uc : UnlockContext) (lang : String)
    → build_episodes_with_status eps uc lang ≡ ok (map (λ ep. status ep uc lang) eps)
unfolding build_episodes_with_status
build_episodes_with_status-eq [] uc lang = refl
build_episodes_with_status-eq (ep ∷ eps) uc lang =
    rw (build_episode_with_status-eq ep uc lang, build_episodes_with_status-eq eps uc lang)

pub is_unlocked_iff :
    (ep : Episode) (uc : UnlockContext) (lang : String)
    → ((status ep uc lang).is_unlocked ≡ true) ↔ IsMet ep uc
is_unlocked_iff ep uc lang =
    let zero_iff = length-eq-zero (Domain.lock_reasons ep uc) in
    let met = lock_reasons-eq-nil_iff ep uc in
    (λ h. met.0 (zero_iff.0 h), λ m. zero_iff.1 (met.1 m))

-- An episode is always presented, and as unlocked exactly when the player meets its conditions; the
-- reasons are what the player lacks: the level, then the factions, then the episodes.
pub build_episode_with_status_unlocked :
    (ep : Episode) (uc : UnlockContext) (lang : String)
    → (row : EpisodeWithStatus) × (build_episode_with_status ep uc lang ≡ ok row)
      × ((row.is_unlocked ≡ true) ↔ IsMet ep uc)
      × (row.lock_reasons ≡ wire_reasons ep uc)
build_episode_with_status_unlocked ep uc lang =
    (status ep uc lang, build_episode_with_status-eq ep uc lang, is_unlocked_iff ep uc lang, refl)
