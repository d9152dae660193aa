-- ===== src/Config/Accepted.antt =====
-- A configuration from the environment is one that the worker and the publisher can be built with.
use overload_party_scenario.Common.{
  ◌≤◌, String, ◌==◌, ◌≡◌, refl, Bool, true, false, none, some, arith,
}
use overload_party_scenario.Common.Int.{ℤ, pos, pos_part, leb_ℤ, ltb_ℤ}
use overload_party_scenario.Errors.{Result, ok, ◌>>◌, >>=-eq-ok, ok-injective}
use overload_party_scenario.Port.{OutboxStore, RawEventPublisher}
use overload_party_scenario.Postgres.OutboxRepository.{visibility_interval}
use overload_party_scenario.Outbox
use overload_party_scenario.Outbox.{Relay}
use overload_party_scenario.Worker.{OutboxTicker, new_outbox_ticker}
use overload_party_scenario.Adapter.Publisher
use overload_party_scenario.Adapter.Publisher.{Publisher}
use overload_party_scenario.Config.{
  Config, refuse, parsed, positive, millisecond, check_texts, database_auth, visibility_timeout,
  from_env,
}

refuse-eq-ok : (b : Bool) (text : String) → refuse b text ≡ ok tt → b ≡ false
refuse-eq-ok true text h = cc
refuse-eq-ok false text h = refl

refuse-then {ℓ} :
    {A : Type ℓ} (b : Bool) (text : String) (k : Result A) {a : A}
    → (refuse b text >> k) ≡ ok a
    → (b ≡ false) × (k ≡ ok a)
refuse-then true text k h = cc
refuse-then false text k h = (refl, h)

-- What cmd/server hands to the relay.
abbrev pub relay_config : Config → Outbox.Config
relay_config cfg = record {
  batch_size = cfg.outbox_batch_size;
  failure_threshold = cfg.outbox_failure_threshold;
  visibility_timeout = cfg.outbox_visibility_timeout;
}

module _ (getenv : String → String) (atoi : String → Result ℤ) (parse_duration : String → Result ℤ)
    (quote : String → String) where
  positive-eq-ok :
      (parse : String → Result ℤ) (name : String) {n : ℤ}
      → positive getenv atoi parse_duration quote parse name ≡ ok n
      → leb_ℤ n (pos 0) ≡ false
  positive-eq-ok parse name {n} h =
      let (m, _, h') = >>=-eq-ok (parsed getenv atoi parse_duration quote parse name) _ h in
      let (large, same) = refuse-then (leb_ℤ m (pos 0)) _ (ok m) h' in
      rw (ok-injective same) at large

  visibility_timeout-eq-ok :
      {n : ℤ}
      → visibility_timeout getenv atoi parse_duration quote ≡ ok n
      → ltb_ℤ n millisecond ≡ false
  unfolding visibility_timeout
  visibility_timeout-eq-ok {n} h =
      let (m, _, h') =
        >>=-eq-ok
          (parsed getenv atoi parse_duration quote parse_duration "OUTBOX_VISIBILITY_TIMEOUT") _
          h in
      let (large, same) = refuse-then (ltb_ℤ m millisecond) _ (ok m) h' in
      rw (ok-injective same) at large

  -- The names that the publisher needs.
  record IsNamed : Type 0 where
    pub project : (getenv "GOOGLE_CLOUD_PROJECT_ID" == "") ≡ false
    pub name_set : (getenv "ONBOARDING_NAME_SET_TOPIC" == "") ≡ false
    pub faction_set : (getenv "ONBOARDING_FACTION_SET_TOPIC" == "") ≡ false
    pub onboarded : (getenv "PLAYER_ONBOARDED_TOPIC" == "") ≡ false

  check_texts-eq-ok : check_texts getenv atoi parse_duration quote ≡ ok tt → IsNamed
  unfolding check_texts
  check_texts-eq-ok h = record {
    project = ground arith;
    name_set = ground arith;
    faction_set = ground arith;
    onboarded = ground arith;
  }

  -- What the checks of a configuration leave.
  record IsChecked (cfg : Config) : Type 0 where
    pub poll : leb_ℤ cfg.outbox_poll_interval (pos 0) ≡ false
    pub batch : leb_ℤ cfg.outbox_batch_size (pos 0) ≡ false
    pub threshold : leb_ℤ cfg.outbox_failure_threshold (pos 0) ≡ false
    pub visibility : ltb_ℤ cfg.outbox_visibility_timeout millisecond ≡ false
    pub project : (cfg.google_cloud_project_id == "") ≡ false
    pub name_set : (cfg.onboarding_name_set_topic == "") ≡ false
    pub faction_set : (cfg.onboarding_faction_set_topic == "") ≡ false
    pub onboarded : (cfg.player_onboarded_topic == "") ≡ false

  from_env-eq-ok :
      {cfg : Config} → from_env getenv atoi parse_duration quote ≡ ok cfg → IsChecked cfg
  unfolding from_env
  from_env-eq-ok {cfg} h =
      let (n, _, h1) = >>=-eq-ok (parsed getenv atoi parse_duration quote atoi "PORT") _ h in
      let (u, texts, h2) = >>=-eq-ok (check_texts getenv atoi parse_duration quote) _ h1 in
      let (iam, _, h3) = >>=-eq-ok (database_auth getenv atoi parse_duration quote) _ h2 in
      let (poll, e4, h4) =
        >>=-eq-ok (positive getenv atoi parse_duration quote parse_duration "OUTBOX_POLL_INTERVAL")
          _ h3 in
      let (batch, e5, h5) =
        >>=-eq-ok (positive getenv atoi parse_duration quote atoi "OUTBOX_BATCH_SIZE") _ h4 in
      let (threshold, e6, h6) =
        >>=-eq-ok (positive getenv atoi parse_duration quote atoi "OUTBOX_FAILURE_THRESHOLD") _
          h5 in
      let (visibility, e7, h7) =
        >>=-eq-ok (visibility_timeout getenv atoi parse_duration quote) _ h6 in
      let named = check_texts-eq-ok texts in
      rw (← ok-injective h7) (record {
        poll = positive-eq-ok parse_duration "OUTBOX_POLL_INTERVAL" e4;
        batch = positive-eq-ok atoi "OUTBOX_BATCH_SIZE" e5;
        threshold = positive-eq-ok atoi "OUTBOX_FAILURE_THRESHOLD" e6;
        visibility = visibility_timeout-eq-ok e7;
        project = named.project;
        name_set = named.name_set;
        faction_set = named.faction_set;
        onboarded = named.onboarded;
      })

  -- A timeout of at least a millisecond hides a claimed row for some time.
  interval_positive : (n : ℤ) → ltb_ℤ n millisecond ≡ false → 1 ≤ visibility_interval (pos_part n)
  interval_positive n h = ground arith

  -- A configuration that is read from the environment is accepted by the constructors of the relay,
  -- of its ticker and of the publisher, if the relay's store and publisher and the ticker's runner
  -- are there and the Pub/Sub client is made; the relay's visibility timeout then hides a claimed
  -- row for at least a microsecond.
  pub from_env_accepted :
      {cfg : Config}
      → from_env getenv atoi parse_duration quote ≡ ok cfg
      → {S : Type 0} (store : OutboxStore S) (publisher : RawEventPublisher S) {R : Type 0}
        (runner : R)
      → ((r : Relay S) × (Outbox.new (some store) (some publisher) (relay_config cfg) ≡ ok r)
          × (1 ≤ visibility_interval r.visibility_timeout))
        × ((t : OutboxTicker) × (new_outbox_ticker (some runner) cfg.outbox_poll_interval ≡ ok t))
        × ((p : Publisher) × (Publisher.new none cfg.google_cloud_project_id
                cfg.onboarding_name_set_topic cfg.onboarding_faction_set_topic
                cfg.player_onboarded_topic
              ≡ ok p))
  unfolding Outbox.new new_outbox_ticker Publisher.new
  from_env_accepted {cfg} h store publisher runner =
      let k = from_env-eq-ok h in
      rw
        (
          k.batch, k.threshold, positive_visibility, k.poll, k.project, k.name_set, k.faction_set,
          k.onboarded,
        )
        (
          (_, refl, interval_positive cfg.outbox_visibility_timeout k.visibility),
          (_, refl),
          (_, refl),
        )
    where
      positive_visibility : leb_ℤ cfg.outbox_visibility_timeout (pos 0) ≡ false
      positive_visibility = ground (arith, (from_env-eq-ok h).visibility)
