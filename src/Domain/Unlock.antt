-- ===== src/Domain/Unlock.antt =====
-- What the lock reasons of an episode say: exactly the conditions that the player does not meet.
use mathlib.Core.List.{append_assoc, append-nil}
use overload_party_scenario.Common.{
  String, ◌≡◌, refl, true, not, List, [], ◌∷◌, ◌++◌, ◌↔◌, inl, inr, map, arith, All, filter,
  Bool-cases, if◌then◌else◌,
}
use overload_party_scenario.Common.Int.{ℤ, ◌≤ℤ◌, ltb_ℤ}
use overload_party_scenario.Domain.{
  Episode, UnlockContext, BoolMap, index, LockReason, level_reason, faction_reason, episode_reason,
  faction_loop, episode_loop, lock_reasons,
}

-- The names that a map does not hold, in their order.
abbrev pub missing : BoolMap → List String → List String
missing m = filter (λ k. not (index m k))

faction_loop-eq :
    (owned : BoolMap) (acc : List LockReason) (fs : List String)
    → faction_loop owned acc fs ≡ acc ++ map faction_reason (missing owned fs)
unfolding faction_loop
faction_loop-eq owned acc [] = rw append-nil
faction_loop-eq owned acc (f ∷ fs) = elim (Bool-cases (index owned f)) [
  | inl e ↦ rw e (faction_loop-eq owned acc fs)
  | inr e ↦ rw (e, faction_loop-eq owned (acc ++ faction_reason f ∷ []) fs, append_assoc)
]

episode_loop-eq :
    (completed : BoolMap) (acc : List LockReason) (ids : List String)
    → episode_loop completed acc ids ≡ acc ++ map episode_reason (missing completed ids)
unfolding episode_loop
episode_loop-eq completed acc [] = rw append-nil
episode_loop-eq completed acc (id ∷ ids) = elim (Bool-cases (index completed id)) [
  | inl e ↦ rw e (episode_loop-eq completed acc ids)
  | inr e ↦ rw (e, episode_loop-eq completed (acc ++ episode_reason id ∷ []) ids, append_assoc)
]

-- The level reason, if the level is too low.
abbrev pub level_part : ℤ → ℤ → List LockReason
level_part required current =
    if ltb_ℤ current required then level_reason required current ∷ [] else []

-- The lock reasons are the level if it is too low, then every faction that the player does not own, then
-- every required episode that is not completed, each kind in the episode's order.
pub lock_reasons-eq_unmet :
    (ep : Episode) (uc : UnlockContext)
    → lock_reasons ep uc
      ≡ level_part ep.required_level uc.player_level
        ++ (map faction_reason (missing uc.owned_factions ep.required_factions)
            ++ map episode_reason (missing uc.completed_episodes ep.required_episodes))
unfolding lock_reasons
lock_reasons-eq_unmet ep uc = rw (episode_loop-eq, faction_loop-eq, append_assoc)

-- All the conditions of an episode, read off the snapshot.
pub record IsMet (ep : Episode) (uc : UnlockContext) : Type 0 where
  pub level : ep.required_level ≤ℤ uc.player_level
  pub factions : All (λ f. index uc.owned_factions f ≡ true) ep.required_factions
  pub episodes : All (λ id. index uc.completed_episodes id ≡ true) ep.required_episodes

missing-eq-nil :
    (m : BoolMap) (ks : List String) → (missing m ks ≡ []) ↔ All (λ k. index m k ≡ true) ks
missing-eq-nil m [] = (λ _. tt, λ _. refl)
missing-eq-nil m (k ∷ ks) =
    let ih = missing-eq-nil m ks in
    elim (Bool-cases (index m k)) [
      | inl e ↦ rw e ((λ h. (refl, ih.0 h)), (λ h. ih.1 h.1))
      | inr e ↦ rw e ((λ h. cc), (λ h. cc))
    ]

append-eq-nil {ℓ} : {A : Type ℓ} (xs ys : List A) → (xs ++ ys ≡ []) ↔ ((xs ≡ []) × (ys ≡ []))
append-eq-nil [] ys = (λ h. (refl, h), λ h. h.1)
append-eq-nil (x ∷ xs) ys = (λ h. cc, λ h. cc)

map-eq-nil {ℓ κ} : {A : Type ℓ} {B : Type κ} (f : A → B) (xs : List A) → (map f xs ≡ []) ↔ (xs ≡ [])
map-eq-nil f [] = (λ h. refl, λ h. refl)
map-eq-nil f (x ∷ xs) = (λ h. cc, λ h. cc)

level_part-eq-nil :
    (required current : ℤ) → (level_part required current ≡ []) ↔ (required ≤ℤ current)
level_part-eq-nil required current = (λ h. ground arith, λ h. ground arith)

-- An episode has no lock reason exactly when the player's level is high enough, every required
-- faction is owned and every required episode is completed.
pub lock_reasons-eq-nil_iff :
    (ep : Episode) (uc : UnlockContext) → (lock_reasons ep uc ≡ []) ↔ IsMet ep uc
lock_reasons-eq-nil_iff ep uc =
    let level = level_part ep.required_level uc.player_level in
    let factions = missing uc.owned_factions ep.required_factions in
    let episodes = missing uc.completed_episodes ep.required_episodes in
    let outer = append-eq-nil level (map faction_reason factions ++ map episode_reason episodes) in
    let inner = append-eq-nil (map faction_reason factions) (map episode_reason episodes) in
    rw lock_reasons-eq_unmet (
      λ h. record {
        level = (level_part-eq-nil ep.required_level uc.player_level).0 (outer.0 h).0;
        factions = (missing-eq-nil _ _).0 ((map-eq-nil _ _).0 (inner.0 (outer.0 h).1).0);
        episodes = (missing-eq-nil _ _).0 ((map-eq-nil _ _).0 (inner.0 (outer.0 h).1).1);
      },
      λ m. outer.1 (
        (level_part-eq-nil ep.required_level uc.player_level).1 m.level,
        inner.1 (
          (map-eq-nil _ _).1 ((missing-eq-nil _ _).1 m.factions),
          (map-eq-nil _ _).1 ((missing-eq-nil _ _).1 m.episodes),
        ),
      ),
    )
