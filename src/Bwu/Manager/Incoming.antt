-- ===== src/Bwu/Manager/Incoming.antt =====
-- bwu/manager.rs: the initiator's path when the upgraded socket connects, on_incoming_connection.
use nearby_rs.Prelude.{
  ℕ, ◌≡◌, refl, ◌∙◌, ap, arith, Bool, true, false, not, Option, none, some, [], ◌∷◌, Bytes, Str,
  str_eq, nat_eq, str_beq_iff, nat_beq, Option-cases, Bool-cases, inl, inr, unwrap_or, List, ◌≢◌,
}
use nearby_rs.Prelude.Map
use nearby_rs.Prelude.Map.{get-remove}
use nearby_rs.Prelude.Set
use nearby_rs.Proto.Upgrade.{ClientIntroduction}
use nearby_rs.Frames.Defs.{ok, is_ok}
use nearby_rs.Frames.Upgrade.{introduction, for_bwu_introduction, for_bwu_introduction_ack}
use nearby_rs.Bwu.Client.{on_bandwidth_changed}
use nearby_rs.Bwu.Platform.{Platform}
use nearby_rs.Bwu.World.{World, update_chan, write_chan, read_chan, get_channel_for_endpoint}
use nearby_rs.Bwu.Manager.Retry.{cancel_retry_upgrade_alarm}
use nearby_rs.Bwu.Manager.Protocol.{
  process_last_write_to_prior_channel_event, run_upgrade_protocol,
  process_safe_to_close_prior_channel_event,
}
use nearby_rs.Bwu.Manager.Introduction.{
  parse_introduction, read_client_introduction_frame, write_client_introduction_ack_frame,
}
use nearby_rs.Bwu.Manager.Introduced.{parse_introduction-built}
use nearby_rs.Bwu.Manager.Respond.{
  only_one, introduced_endpoint, accept_introduction, on_incoming_connection,
}
use nearby_rs.Bwu.Manager.Handshake.{parked, last_write_sent}
use nearby_rs.Bwu.Manager.Complete.{
  prepared, safe_to_close_sent, run_upgrade_protocol-parked, handshake_complete,
}
use nearby_rs.Bwu.Manager.Quiet.{Quiet-trans, Quiet-process_last_write, Quiet-process_safe_to_close}

module _ (p : Platform) where
  open p use {codec, channel}

  -- The two states differ at most in what the channel `r` holds.
  pub record IsSameBut (r : ℕ) (w w' : World p) : Type 0 where
    pub others : (q : ℕ) → nat_beq r q ≡ false → w'.chan q ≡ w.chan q
    pub rest : record w' { chan = w.chan } ≡ w

  IsSameBut-update :
      (r : ℕ) (f : p.Chan → p.Chan) (w w' : World p)
      → IsSameBut r w w'
      → IsSameBut r w (update_chan p f r w')
  IsSameBut-update r f w w' s = record { others = λ q n. rw n (s.others q n); rest = s.rest }

  IsSameBut-write_chan :
      (r : ℕ) (b : Bytes) (w w' : World p)
      → IsSameBut r w w'
      → IsSameBut r w (write_chan p r b w').1
  unfolding write_chan
  IsSameBut-write_chan r b w w' s = record { others = λ q n. rw n (s.others q n); rest = s.rest }

  IsSameBut-read_chan : (r : ℕ) (w : World p) → IsSameBut r w (read_chan p r w).1
  unfolding read_chan
  IsSameBut-read_chan r w = record { others = λ q n. rw n refl; rest = refl }

  -- The state in which the introduction has been read and acknowledged.
  abbrev pub acknowledged : ℕ → World p → World p
  acknowledged r w = (write_chan p r (for_bwu_introduction_ack codec) (read_chan p r w).1).1

  abbrev pub ack_sent : ℕ → World p → Bool
  ack_sent r w = is_ok (write_chan p r (for_bwu_introduction_ack codec) (read_chan p r w).1).0

  abbrev pub introduced : ℕ → World p → Option ClientIntroduction
  introduced r w = parse_introduction codec (channel.read (w.chan r)).0

  IsSameBut-accept_introduction :
      (r : ℕ) (i : ClientIntroduction) (w w' : World p)
      → IsSameBut r w w'
      → introduced_endpoint p i w' ≡ none
      → IsSameBut r w (accept_introduction p r i w')
  unfolding accept_introduction write_client_introduction_ack_frame write_chan introduced_endpoint
  IsSameBut-accept_introduction r i w w' s n =
      let written = IsSameBut-write_chan r (for_bwu_introduction_ack codec) w w' s in
      elim (Bool-cases (is_ok (channel.write (for_bwu_introduction_ack codec) (w'.chan r)).0)) [
        | inl e ↦ rw (e, n) written
        | inr e ↦ rw e (IsSameBut-update r channel.close w _ written)
      ]

  only_one-none : (l : List Str) → ((id : Str) → l ≢ id ∷ []) → only_one p l ≡ none
  only_one-none [] many = refl
  only_one-none (id ∷ []) many = absurd (many id refl)
  only_one-none (id ∷ j ∷ l) many = refl

  introduced_endpoint-none :
      (i : ClientIntroduction) (w : World p)
      → Set.contains (unwrap_or i.endpoint_id []) w.in_progress_upgrades ≡ false
      → ((id : Str) → w.in_progress_upgrades ≢ id ∷ [])
      → introduced_endpoint p i w ≡ none
  unfolding introduced_endpoint
  introduced_endpoint-none i w n many = rw n (only_one-none w.in_progress_upgrades many)

  -- If there is not exactly one upgrade in progress, an incoming connection whose introduction, if it
  -- has one, names no endpoint with an upgrade in progress changes nothing but the state of its own
  -- channel: no other channel, upgrade, retry, registration or medium, and not the client.
  pub on_incoming_connection-IsSameBut :
      (r : ℕ) (w : World p)
      → ((i : ClientIntroduction)
          → introduced r w ≡ some i
          → Set.contains (unwrap_or i.endpoint_id []) w.in_progress_upgrades ≡ false)
      → ((id : Str) → w.in_progress_upgrades ≢ id ∷ [])
      → IsSameBut r w (on_incoming_connection p r w)
  unfolding on_incoming_connection read_client_introduction_frame read_chan introduced_endpoint
  on_incoming_connection-IsSameBut r w unknown many = elim (Option-cases (introduced r w)) [
    | inl n ↦
        rw (on_incoming_connection, n)
          (IsSameBut-update r channel.close w _ (IsSameBut-read_chan r w))
    | inr (i, n) ↦
        rw (on_incoming_connection, n)
          (IsSameBut-accept_introduction r i w _ (IsSameBut-read_chan r w)
            (introduced_endpoint-none i w (unknown i n) many))
  ]

  introduced_endpoint-only :
      (id : Str) (i : ClientIntroduction) (w : World p)
      → w.in_progress_upgrades ≡ id ∷ []
      → introduced_endpoint p i w ≡ some id
  unfolding introduced_endpoint Set.contains
  introduced_endpoint-only id i w h =
      let same = str_beq_iff id (unwrap_or i.endpoint_id []) in rw h (ground (arith, same))

  -- The state that the upgrade protocol starts in.
  abbrev pub connected : Str → ℕ → World p → World p
  connected id r w = cancel_retry_upgrade_alarm p id (acknowledged r w)

  pub on_incoming_connection-introduced :
      (id intro_id last_id : Str) (disabling : Bool) (r : ℕ) (w : World p)
      → w.in_progress_upgrades ≡ id ∷ []
      → (channel.read (w.chan r)).0 ≡ ok (for_bwu_introduction codec intro_id last_id disabling)
      → ack_sent r w ≡ true
      → on_incoming_connection p r w
        ≡ run_upgrade_protocol p id r (not disabling) (connected id r w)
  unfolding on_incoming_connection read_client_introduction_frame accept_introduction read_chan
      write_chan write_client_introduction_ack_frame introduced_endpoint introduction
  on_incoming_connection-introduced id intro_id last_id disabling r w only reads acked =
      let (built, _, _, _) = parse_introduction-built codec intro_id last_id disabling in
      let i = introduction intro_id last_id disabling in
      rw (on_incoming_connection, reads, built, acked, introduced_endpoint-only id i w only) refl

  alarms-handshake :
      (id : Str) (old new : ℕ) (e : Bool) (w : World p)
      → Map.get id w.ecm ≡ some old
      → Set.contains id w.successfully_upgraded_endpoints ≡ false
      → last_write_sent p old (prepared p new w) ≡ true
      → (let w1 = run_upgrade_protocol p id new e w in
          let w2 = process_last_write_to_prior_channel_event p id w1 in
          Map.get id (process_safe_to_close_prior_channel_event p id w2).retry_upgrade_alarms
          ≡ Map.get id w.retry_upgrade_alarms)
  alarms-handshake id old new e w c h k =
      let u = parked p id old new (prepared p new w) in
      let u' = process_last_write_to_prior_channel_event p id u in
      let q =
        Quiet-trans p (Quiet-process_last_write p id u) (Quiet-process_safe_to_close p id u') in
      rw (run_upgrade_protocol-parked p id old new e w c k h) (ap (Map.get id) q.alarms)

  get-cancel_retry_upgrade_alarm :
      (id : Str) (w : World p)
      → Map.get id (cancel_retry_upgrade_alarm p id w).retry_upgrade_alarms ≡ none
  unfolding cancel_retry_upgrade_alarm
  get-cancel_retry_upgrade_alarm id w = rw get-remove (ground (arith, str_beq_iff id id))

  -- The initiator's whole path: with one upgrade in progress, a socket connects and introduces
  -- itself, under whatever endpoint id; then come the peer's LAST_WRITE and its SAFE_TO_CLOSE. If the
  -- endpoint had a channel, no last write was remembered, and the acknowledgement and both frames on
  -- the old channel go out, then the socket's channel is registered for the endpoint, no upgrade of
  -- it is in progress, nothing is parked, no retry is pending, and the client is told the new medium.
  pub on_incoming_connection_complete :
      (id intro_id last_id : Str) (disabling : Bool) (old r : ℕ) (w : World p)
      → w.in_progress_upgrades ≡ id ∷ []
      → (channel.read (w.chan r)).0 ≡ ok (for_bwu_introduction codec intro_id last_id disabling)
      → ack_sent r w ≡ true
      → Map.get id w.ecm ≡ some old
      → Set.contains id w.successfully_upgraded_endpoints ≡ false
      → last_write_sent p old (prepared p r (connected id r w)) ≡ true
      → safe_to_close_sent p old (parked p id old r (prepared p r (connected id r w))) ≡ true
      → (let w1 = on_incoming_connection p r w in
          let w2 = process_last_write_to_prior_channel_event p id w1 in
          let w3 = process_safe_to_close_prior_channel_event p id w2 in
          (Map.get id w3.previous_endpoint_channels ≡ none)
          × (Set.contains id w3.in_progress_upgrades ≡ false)
          × (get_channel_for_endpoint p id w3 ≡ some r)
          × (Map.get id w3.retry_upgrade_alarms ≡ none)
          × (w3.client ≡ on_bandwidth_changed id (channel.medium (w3.chan r)) w.client))
  unfolding cancel_retry_upgrade_alarm write_chan read_chan
  on_incoming_connection_complete id intro_id last_id disabling old r w only reads acked c h k l =
      let u = connected id r w in
      let (freed, over, registered, told) =
        handshake_complete p id old r (not disabling) u c h k l in
      rw (on_incoming_connection-introduced id intro_id last_id disabling r w only reads acked) (
        freed,
        over,
        registered,
        alarms-handshake id old r (not disabling) u c h k
            ∙ get-cancel_retry_upgrade_alarm id (acknowledged r w),
        told,
      )
