-- ===== src/Domain.antt =====
-- internal/domain: episodes, the player's snapshot for the unlock decision, the reasons why an
-- episode is locked (scenario.go), and the onboarding events (scenario_event.go).
pub mod Unlock
use overload_party_scenario.Common.{
  ℕ, String, Bool, true, false, not, Option, List, [], ◌∷◌, ◌++◌, ◌==◌, if◌then◌else◌,
}
use overload_party_scenario.Common.Int.{ℤ, pos, ltb_ℤ}

-- time.Time in UTC: nanoseconds since January 1 of year 1, Go's zero time.
abbrev pub Time : Type 0
Time = ℕ

pub record Episode : Type 0 where
  pub episode_id : String
  pub faction : Option String
  pub episode_number : ℤ
  pub title_ja : String
  pub title_en : String
  pub required_level : ℤ
  pub required_factions : List String
  pub required_episodes : List String
  pub script_path : String
  pub thumbnail_path : Option String
  pub sort_order : ℤ
  pub is_active : Bool
  pub created_at : Time

-- A `map[string]bool`, the latest assignment first.
abbrev pub BoolMap : Type 0
BoolMap = List (String × Bool)

-- `m[k]`, which is false at a missing key.
abbrev pub index : BoolMap → String → Bool
index [] k = false
index ((j, v) ∷ m) k = let rest = index m k in if j == k then v else rest

-- `m[k] = v`
abbrev pub assign : String → Bool → BoolMap → BoolMap
assign k v m = (k, v) ∷ m

pub record UnlockContext : Type 0 where
  pub player_level : ℤ
  pub owned_factions : BoolMap
  pub completed_episodes : BoolMap

-- The three constants of `LockReasonType`, and any other text of that Go type.
pub data LockReasonType : Type 0 where
  level faction episode : LockReasonType
  other : String → LockReasonType

pub record LockReason : Type 0 where
  pub type : LockReasonType
  pub required_level : ℤ
  pub current_level : ℤ
  pub required_faction : String
  pub required_episode : String

-- A literal that sets one variant's fields leaves the others at their zero values.
abbrev pub level_reason : ℤ → ℤ → LockReason
level_reason required current = record {
  type = level;
  required_level = required;
  current_level = current;
  required_faction = "";
  required_episode = "";
}

abbrev pub faction_reason : String → LockReason
faction_reason f = record {
  type = faction;
  required_level = pos 0;
  current_level = pos 0;
  required_faction = f;
  required_episode = "";
}

abbrev pub episode_reason : String → LockReason
episode_reason id = record {
  type = episode;
  required_level = pos 0;
  current_level = pos 0;
  required_faction = "";
  required_episode = id;
}

-- The loop over `ep.RequiredFactions`, on the reasons so far.
faction_loop : BoolMap → List LockReason → List String → List LockReason
faction_loop owned reasons [] = reasons
faction_loop owned reasons (f ∷ fs) =
    faction_loop owned (if not (index owned f) then reasons ++ faction_reason f ∷ [] else reasons)
      fs

-- The loop over `ep.RequiredEpisodes`.
episode_loop : BoolMap → List LockReason → List String → List LockReason
episode_loop completed reasons [] = reasons
episode_loop completed reasons (id ∷ ids) =
    episode_loop completed
      (if not (index completed id) then reasons ++ episode_reason id ∷ [] else reasons) ids

unfoldable pub lock_reasons : Episode → UnlockContext → List LockReason
unfolding faction_loop episode_loop
lock_reasons ep uc =
    let reasons =
      if ltb_ℤ uc.player_level ep.required_level
      then level_reason ep.required_level uc.player_level ∷ []
      else [] in
    episode_loop uc.completed_episodes (faction_loop uc.owned_factions reasons ep.required_factions)
      ep.required_episodes

unfoldable pub title : Episode → String → String
title ep lang = if lang == "en" then ep.title_en else ep.title_ja

pub record OnboardingNameSetEvent : Type 0 where
  pub event_id : String
  pub timestamp : Time
  pub player_id : String
  pub name : String

pub record OnboardingFactionSetEvent : Type 0 where
  pub event_id : String
  pub timestamp : Time
  pub player_id : String
  pub initial_faction_id : String

pub record PlayerOnboardedEvent : Type 0 where
  pub event_id : String
  pub timestamp : Time
  pub player_id : String
  pub initial_faction_id : String
