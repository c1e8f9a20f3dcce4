-- ===== src/Bwu/Manager/Attempts.antt =====
-- bwu/manager.rs: with fuel for each upgrade medium, an upgrade, a failure and a retry return.
use nearby_rs.Prelude.{
  ℕ, zero, suc, ◌<◌, ◌≡◌, ◌≢◌, refl, sym, ap, subst, ◌∙◌, ◌⊎◌, inl, inr, arith, true, false, List,
  [], ◌∷◌, Str, str_eq, length, is_some, Option-cases,
}
use nearby_rs.Prelude.Set
use nearby_rs.Mediums.{Medium, medium_eq, medium_beq_iff}
use nearby_rs.Proto.Upgrade.{UpgradePathInfo}
use nearby_rs.Bwu.Client.{ClientProxy, get_upgrade_mediums}
use nearby_rs.Bwu.Platform.{Platform}
use nearby_rs.Bwu.World.{World, write_chan, get_channel_for_endpoint}
use nearby_rs.Bwu.Manager.Medium.{
  upi_medium, upgrade_path_info_for_medium, get_bwu_medium_for_endpoint,
  set_bwu_medium_for_endpoint, has_handler_for_medium, revert_bwu_medium_for_endpoint,
}
use nearby_rs.Bwu.Manager.Retry.{
  first_or_unknown, untried_after, strip_out_unavailable_mediums, choose_best_upgrade_medium,
  cancel_retry_upgrade_alarm,
}
use nearby_rs.Bwu.Manager.Initiate.{
  Attempt, try_next_best_upgrade_mediums, revert_failed_medium, process_upgrade_failure_event,
  initialize_medium, offer_upgrade, start_upgrade, initiate_bwu_for_endpoint, fire_retry_alarm,
}
use nearby_rs.Bwu.Manager.Termination.{has, Distinct, untried_after-attempt, untried_after-le}

-- `next` is left to try when the attempt on `m` has failed.
abbrev Untried : Str → Medium → Medium → ClientProxy → Type 0
Untried id m next client =
    has next
      (untried_after (upi_medium (upgrade_path_info_for_medium m)) (get_upgrade_mediums id client))
    ≡ true

first_or_unknown_cases :
    (l : List Medium)
    → (first_or_unknown l ≡ Medium.unknown_medium) ⊎ (has (first_or_unknown l) l ≡ true)
first_or_unknown_cases [] = inl refl
first_or_unknown_cases (x ∷ l) = inr (ground (arith, medium_beq_iff x x))

module _ (p : Platform) where
  client-initialize_medium :
      (m : Medium) (s id : Str) (w : World p) → (initialize_medium p m s id w).1.client ≡ w.client
  unfolding initialize_medium
  client-initialize_medium m s id w = ground arith

  client-write_chan : (r : ℕ) (b : List ℕ) (w : World p) → (write_chan p r b w).1.client ≡ w.client
  unfolding write_chan
  client-write_chan r b w = refl

  client-set_bwu_medium_for_endpoint :
      (id : Str) (m : Medium) (w : World p)
      → (set_bwu_medium_for_endpoint p id m w).client ≡ w.client
  unfolding set_bwu_medium_for_endpoint
  client-set_bwu_medium_for_endpoint id m w = ground arith

  client-revert_bwu_medium_for_endpoint :
      (s id : Str) (w : World p) → (revert_bwu_medium_for_endpoint p s id w).client ≡ w.client
  unfolding revert_bwu_medium_for_endpoint
  client-revert_bwu_medium_for_endpoint s id w = ground arith

  client-revert_failed_medium :
      (id : Str) (w : World p) → (revert_failed_medium p id w).client ≡ w.client
  unfolding revert_failed_medium
  client-revert_failed_medium id w = grind (arith, client-revert_bwu_medium_for_endpoint)

  has-strip_out_unavailable_mediums :
      (m : Medium) (l : List Medium) (w : World p)
      → has m (strip_out_unavailable_mediums p l w) ≡ true
      → has m l ≡ true
  unfolding strip_out_unavailable_mediums
  has-strip_out_unavailable_mediums m [] w h = h
  has-strip_out_unavailable_mediums m (x ∷ l) w h =
      ground (arith, has-strip_out_unavailable_mediums m l w)

  -- The medium chosen is one of those offered, unless none is.
  pub choose_cases :
      (id : Str) (l : List Medium) (w : World p)
      → (choose_best_upgrade_medium p id l w ≡ Medium.unknown_medium)
        ⊎ (has (choose_best_upgrade_medium p id l w) l ≡ true)
  unfolding choose_best_upgrade_medium
  choose_cases id l w = ground (
    arith,
    first_or_unknown_cases (strip_out_unavailable_mediums p l w),
    has-strip_out_unavailable_mediums (first_or_unknown (strip_out_unavailable_mediums p l w)) l w,
    has-strip_out_unavailable_mediums (get_bwu_medium_for_endpoint p id w) l w,
  )

  has_handler-known :
      (m : Medium) (w : World p) → has_handler_for_medium p m w ≡ true → m ≢ Medium.unknown_medium
  unfolding has_handler_for_medium
  has_handler-known m w h = ground (arith, medium_beq_iff m Medium.unknown_medium)

  module _ (attempt : Attempt p) (id : Str) where
    try_next_total :
        (l : List Medium) (w : World p)
        → ((next : Medium) (w' : World p)
            → has next l ≡ true
            → w'.client ≡ w.client
            → is_some (attempt next w') ≡ true)
        → is_some (try_next_best_upgrade_mediums p attempt id l w) ≡ true
    unfolding try_next_best_upgrade_mediums
    try_next_total l w h =
        let next = choose_best_upgrade_medium p id l w in
        ground (
          arith,
          choose_cases id l w,
          has_handler-known next w,
          h next (set_bwu_medium_for_endpoint p id next w),
          client-set_bwu_medium_for_endpoint id next w,
        )

    process_failure_total :
        (info : UpgradePathInfo) (w : World p)
        → ((next : Medium) (w' : World p)
            → has next (untried_after (upi_medium info) (get_upgrade_mediums id w.client)) ≡ true
            → w'.client ≡ w.client
            → is_some (attempt next w') ≡ true)
        → is_some (process_upgrade_failure_event p attempt id info w) ≡ true
    unfolding process_upgrade_failure_event
    process_failure_total info w h =
        let w1 : World p = record w {
          in_progress_upgrades = Set.remove id w.in_progress_upgrades;
        } in
        ground (
          arith,
          try_next_total (untried_after (upi_medium info) (get_upgrade_mediums id w.client))
              (revert_failed_medium p id w1)
              (λ next w' q e. h next w' q (e ∙ client-revert_failed_medium id w1)),
        )

    offer_total :
        (m : Medium) (r : ℕ) (w : World p)
        → ((next : Medium) (w' : World p)
            → Untried id m next w.client
            → w'.client ≡ w.client
            → is_some (attempt next w') ≡ true)
        → is_some (offer_upgrade p attempt id m r w) ≡ true
    unfolding offer_upgrade
    offer_total m r w h =
        let s = p.channel.service_id (w.chan r) in
        let w1 = (initialize_medium p m s id w).1 in
        let b = (initialize_medium p m s id w).0 in
        let e1 = client-initialize_medium m s id w in
        let e2 = client-write_chan r b w1 in
        let failure = λ (w' : World p) (e : w'.client ≡ w.client).
          process_failure_total (upgrade_path_info_for_medium m) w'
            (λ next w'' q e'. h next w'' (subst (Untried id m next) e q) (e' ∙ e)) in
        ground (arith, failure w1 e1, failure (write_chan p r b w1).1 (e2 ∙ e1))

    start_total :
        (m : Medium) (w : World p)
        → ((next : Medium) (w' : World p)
            → Untried id m next w.client
            → w'.client ≡ w.client
            → is_some (attempt next w') ≡ true)
        → is_some (start_upgrade p attempt id m w) ≡ true
    unfolding start_upgrade cancel_retry_upgrade_alarm
    start_total m w h =
        let w2 = cancel_retry_upgrade_alarm p id (set_bwu_medium_for_endpoint p id m w) in
        let same = client-set_bwu_medium_for_endpoint id m w in
        let offer = λ (r : ℕ).
          offer_total m r w2
            (λ next w'' q e'. h next w'' (subst (Untried id m next) same q) (e' ∙ same)) in
        elim (Option-cases (get_channel_for_endpoint p id w2)) [
          | inl n ↦ ground arith
          | inr (r, q) ↦ ground (arith, offer r)
        ]

  initiate_within :
      (l : List Medium)
      → Distinct l
      → has Medium.unknown_medium l ≡ false
      → (fuel : ℕ) (id : Str) (m : Medium) (w : World p) → get_upgrade_mediums id w.client ≡ l
      → length (untried_after (upi_medium (upgrade_path_info_for_medium m)) l) < fuel
      → is_some (initiate_bwu_for_endpoint p fuel id m w) ≡ true
  unfolding initiate_bwu_for_endpoint
  initiate_within l d u zero id m w e h = absurd (omega arith)
  initiate_within l d u (suc fuel) id m w e h =
      let last = upi_medium (upgrade_path_info_for_medium m) in
      let again =
        λ (next : Medium) (w' : World p) (q : Untried id m next w.client)
            (e' : w'.client ≡ w.client).
          let left =
            untried_after-attempt last next l d u
              (subst (λ t. has next (untried_after last t) ≡ true) e q) in
          initiate_within l d u fuel id next w' (ap (get_upgrade_mediums id) e' ∙ e)
            (omega arith) in
      ground (arith, start_total (initiate_bwu_for_endpoint p fuel id) id m w again)

  -- There is fuel for each upgrade medium of the endpoint, and the mediums are distinct and known.
  pub record HasRoom (fuel : ℕ) (id : Str) (client : ClientProxy) : Type 0 where
    pub distinct : Distinct (get_upgrade_mediums id client)
    pub known : has Medium.unknown_medium (get_upgrade_mediums id client) ≡ false
    pub room : length (get_upgrade_mediums id client) < fuel

  -- An upgrade returns.
  pub initiate_total :
      (fuel : ℕ) (id : Str) (m : Medium) (w : World p)
      → HasRoom fuel id w.client
      → is_some (initiate_bwu_for_endpoint p fuel id m w) ≡ true
  initiate_total fuel id m w h =
      initiate_within (get_upgrade_mediums id w.client) h.distinct h.known fuel id m w refl (
        omega (
          arith,
          untried_after-le (upi_medium (upgrade_path_info_for_medium m))
              (get_upgrade_mediums id w.client),
        ))

  -- The failure of an upgrade is handled, the attempts that it makes included.
  pub process_upgrade_failure_event_total :
      (fuel : ℕ) (id : Str) (info : UpgradePathInfo) (w : World p)
      → HasRoom fuel id w.client
      → is_some (process_upgrade_failure_event p (initiate_bwu_for_endpoint p fuel id) id info w)
        ≡ true
  process_upgrade_failure_event_total fuel id info w h =
      process_failure_total (initiate_bwu_for_endpoint p fuel id) id info w
        (λ next w' _ e. initiate_total fuel id next w' (subst (HasRoom fuel id) (sym e) h))

  -- A retry that fires is handled, the attempts that it makes included, if the endpoint's upgrade
  -- mediums are distinct and known, and there is fuel for each.
  pub fire_retry_alarm_total :
      (fuel : ℕ) (id : Str) (w : World p)
      → HasRoom fuel id w.client
      → is_some (fire_retry_alarm p fuel id w) ≡ true
  unfolding fire_retry_alarm cancel_retry_upgrade_alarm
  fire_retry_alarm_total fuel id w h =
      let w1 = cancel_retry_upgrade_alarm p id w in
      ground (
        arith,
        try_next_total (initiate_bwu_for_endpoint p fuel id) id (get_upgrade_mediums id w.client) w1
            (λ next w' _ e. initiate_total fuel id next w' (subst (HasRoom fuel id) (sym e) h)),
      )
