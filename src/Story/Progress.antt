-- ===== src/Story/Progress.antt =====
-- The record of completions never runs ahead of the unlock conditions.
use overload_party_scenario.Common.{
  String, ◌≡◌, refl, sym, inl, inr, true, some, List, [], ◌∷◌, contains, arith, All, All-map, ◌||◌,
  ap, ◌∙◌,
}
use overload_party_scenario.Errors.{wrap}
use overload_party_scenario.Errors.Action.{on_error}
use overload_party_scenario.Domain.{Episode, index, BoolMap, assign}
use overload_party_scenario.Port.{StoryRepo, ScriptStore, PlayerProgressReader}
use overload_party_scenario.Port.Laws.{StoryRepoLaws}
use overload_party_scenario.Story.{mark_all, unlock_context, complete_episode}
use overload_party_scenario.Story.Access.{MayAccess, with_access-keeps}

-- The loop that fills a map from a slice holds what the map held and what the slice names.
index-mark_all :
    (m : BoolMap) (ks : List String) (k : String)
    → index (mark_all m ks) k ≡ (contains ks k || index m k)
index-mark_all m [] k = refl
index-mark_all m (j ∷ ks) k = ground (arith, index-mark_all (assign j true m) ks k)

some_cancel {ℓ} : {A : Type ℓ} {a b : A} → some a ≡ some b → a ≡ b
some_cancel h = cc

listed_of_held :
    (ks : List String) (k : String) → index (mark_all [] ks) k ≡ true → contains ks k ≡ true
listed_of_held ks k h = ground (arith, index-mark_all [] ks k)

module _ {S : Type 0} (R : StoryRepo S) (laws : StoryRepoLaws R) (store : ScriptStore)
    (account : PlayerProgressReader) where
  open laws use {found, completed}

  -- Each completed episode has all its required episodes completed, for every player.
  abbrev pub IsClosed : S → Type 0
  IsClosed s =
      (q k : String) (ep : Episode)
      → contains (completed s q) k ≡ true
      → found s k ≡ some ep
      → All (λ r. contains (completed s q) r ≡ true) ep.required_episodes

  mark-IsClosed :
      (p id : String) (s : S) (ep : Episode)
      → found s id ≡ some ep
      → MayAccess R laws store account s p ep
      → IsClosed s
      → IsClosed (R.mark_complete p id s).1
  mark-IsClosed p id s ep e m closed q k ep' h e' = elim (laws.mark_only p id s q k h) [
    | inl old ↦
        All-map (λ r. laws.mark_keeps p id s q r) _ (closed q k ep' old (rw laws.mark-found at e'))
    | inr (same_player, same_episode) ↦
        let same : ep ≡ ep' =
          some_cancel (sym e ∙ ap (found s) same_episode ∙ sym (laws.mark-found p id s k) ∙ e') in
        rw (← same, ← same_player)
          (All-map (λ r c. laws.mark_keeps p id s p r (listed_of_held _ r c)) _
            (unfold unlock_context in m.met.episodes))
  ]

  -- If each completed episode of each player has all its required episodes completed, then it stays
  -- so after a completion request, whatever its outcome.
  pub complete_episode-IsClosed :
      (p id : String) (s : S) → IsClosed s → IsClosed (complete_episode R store account p id s).1
  unfolding complete_episode
  complete_episode-IsClosed p id s closed =
      with_access-keeps R laws store account id p
        (λ ep. on_error (wrap "mark complete") (R.mark_complete p id)) s IsClosed closed
        λ ep e m. mark-IsClosed p id s ep e m closed
