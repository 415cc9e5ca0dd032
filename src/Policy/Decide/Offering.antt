-- ===== src/Policy/Decide/Offering.antt =====
-- Withdrawals and offers of a decision are in order (bazaar_client/policy/decide.py).
use mathlib.Core.Path.{subst}
use spaceport_bazzar_client.Base.{
  if◌then◌else◌, ◌==◌, nat_eq, Bool-cases, Option-cases, guarded-eq_some, length, All, All-both, ℕ,
  ◌+◌, ◌-◌, ◌≤◌, min, ◌≡◌, refl, ◌∙◌, inl, inr, Bool, true, false, not, ◌&&◌, ◌||◌, Option, none,
  some, List, [], ◌∷◌, arith,
}
use spaceport_bazzar_client.Domain.Bundle.{Resource, resource_eq, Bundle, get, is_zero}
use spaceport_bazzar_client.Domain.Bundle.Laws.{get-bundle_of, get-saturating_sub, dominates→le}
use spaceport_bazzar_client.Domain.Types.{object_eq, Offer, Snapshot, outgoing_open_offers}
use spaceport_bazzar_client.World.Counterparties.{CounterpartyModel}
use spaceport_bazzar_client.Execution.Actions.{Action}
use spaceport_bazzar_client.Sim.Economy.{lifetime_ok}
use spaceport_bazzar_client.Policy.Memory.{PolicyMemory}
use spaceport_bazzar_client.Policy.Reserves.{Urgency, in_end_game, specialty_floor}
use spaceport_bazzar_client.Policy.Pricing.{max_bulk_trade_size, trade_size, desired_quantity}
use spaceport_bazzar_client.Policy.Pricing.Terms.{compute_terms_bounds}
use spaceport_bazzar_client.World.Counterparties.InPlay.{IsInPlay}
use spaceport_bazzar_client.Policy.Targeting.Choice.{IsApt, rank_counterparties-IsApt}
use spaceport_bazzar_client.Policy.Targeting.{Candidate, rank_counterparties}
use spaceport_bazzar_client.Policy.Decide.Turn.{Turn, act, ttl_of, has_normal_offers}
use spaceport_bazzar_client.Policy.Decide.Outgoing.{
  is_dangerous, withdraw_dangerous, wanted_quantities, is_pending, floor_of, payable_above,
  Proposal, try_terms, terms_for, propose, propose_one, propose_each, propose_offers,
}
use spaceport_bazzar_client.Policy.Decide.Kept.{IsProposed, Kept, spend-Kept, act-Kept}

-- A lifetime that is left passes the server's test.
pub lifetime_ok-ttl_of :
    (snap : Snapshot)
    → (ttl_of snap == 0) ≡ false
    → lifetime_ok snap.rules snap.tick snap.rules.max_offer_ttl_ticks (snap.tick + ttl_of snap)
      ≡ true
lifetime_ok-ttl_of snap h = ground arith

get-payable_above :
    (specialty : Resource) (floor : ℕ) (surplus available : Bundle) (r : Resource)
    → get (payable_above specialty floor surplus available) r ≤ get surplus r
get-payable_above specialty floor surplus available r = ground (
  arith,
  get-bundle_of
      (λ (s : Resource).
        if s == specialty then min (get surplus s) (get available s - floor) else get surplus s)
      r,
)

module _ (model : CounterpartyModel) (snap : Snapshot) (limit : ℕ) (stock : Bundle) where
  pub withdraw_dangerous-Kept :
      (reserve : Bundle) (ticks_left : Option ℕ) (offers : List Offer) (t : Turn)
      → All (IsProposed snap) offers
      → Kept model snap limit stock t
      → Kept model snap limit stock (withdraw_dangerous snap reserve ticks_left offers t)
  unfolding withdraw_dangerous
  withdraw_dangerous-Kept reserve ticks_left [] t own k = k
  withdraw_dangerous-Kept reserve ticks_left (o ∷ offers) t own k =
      elim (Bool-cases
        (not (t.budget == 0) && is_dangerous snap reserve t.available ticks_left o)) [
          | inl danger ↦ rw danger (
              withdraw_dangerous-Kept reserve ticks_left offers (act (Action.withdraw o.offer_id) t)
                own.1
                (act-Kept model snap limit stock (Action.withdraw o.offer_id) t (ground arith) refl
                  (inl (o, refl, own.0)) k))
          | inr fine ↦ rw fine (withdraw_dangerous-Kept reserve ticks_left offers t own.1 k)
        ]

  -- A running state whose surplus is in stock.
  abbrev ProposalKept : Proposal → Type 0
  ProposalKept p =
      Kept model snap limit stock p.turn
      × ((r : Resource) → get p.surplus r ≤ get p.turn.available r)

  propose-Kept :
      (c : Candidate) (give receive : Bundle) (p : Proposal)
      → IsInPlay model c.station_id
      → (p.turn.budget == 0) ≡ false
      → (ttl_of snap == 0) ≡ false
      → is_zero give ≡ false
      → ((r : Resource) → get give r ≤ get p.surplus r)
      → ProposalKept p
      → ProposalKept (propose snap c give receive p)
  propose-Kept c give receive p partner left lives gives held (k, below) = (
    spend-Kept model snap limit stock
        (Action.offer (record {
          recipient_id = c.station_id;
          give = give;
          receive = receive;
          expires_tick = snap.tick + ttl_of snap;
        }))
        give p.turn left (λ r. omega arith) (λ r. omega (arith, held r, below r))
        (partner, gives, lifetime_ok-ttl_of snap lives) k,
    λ r. omega (
      arith,
      below r,
      get-saturating_sub p.surplus give r,
      get-saturating_sub p.turn.available give r,
    ),
  )

  -- Terms give something, and all of it is in surplus.
  abbrev Affordable : Bundle → Bundle × Bundle → Type 0
  Affordable surplus terms =
      (is_zero terms.0 ≡ false) × ((r : Resource) → get terms.0 r ≤ get surplus r)

  try_terms-Affordable :
      (wanted : Resource → ℕ) (urgency : Resource → Urgency) (ticks_left : Option ℕ) (c : Candidate)
      (p : Proposal) (tried : Option ℕ) (terms : Bundle × Bundle)
      → try_terms snap wanted urgency ticks_left c p tried ≡ some terms
      → Affordable p.surplus terms
  unfolding try_terms
  try_terms-Affordable wanted urgency ticks_left c p tried (give, receive) e =
      let specialty = snap.me.specialty in
      let available = p.turn.available in
      let floor = floor_of snap ticks_left p.preserve_normal tried in
      let end_game = in_end_game ticks_left in
      let spare = get available specialty - specialty_floor snap.me ticks_left in
      let size = if end_game then max_bulk_trade_size else trade_size spare in
      let payable = payable_above specialty floor p.surplus available in
      let (_g, _w, covered, gives, _a, _b, _c) =
        compute_terms_bounds c.want
          (desired_quantity (wanted c.want) (some (get available c.want)) size) c.give payable
          (urgency c.want) tried (some (get available c.want)) (end_game && c.give == specialty)
          give receive (guarded-eq_some _ _ e) in
      (
        gives,
        λ r. omega (
          arith,
          dominates→le payable give covered r,
          get-payable_above specialty floor p.surplus available r,
        ),
      )

  terms_for-Affordable :
      (wanted : Resource → ℕ) (urgency : Resource → Urgency) (ticks_left : Option ℕ) (c : Candidate)
      (p : Proposal) (terms : Bundle × Bundle)
      → terms_for snap wanted urgency ticks_left c p ≡ some terms
      → Affordable p.surplus terms
  unfolding terms_for
  terms_for-Affordable wanted urgency ticks_left c p terms e =
      elim (Option-cases (try_terms snap wanted urgency ticks_left c p none)) [
        | inr (found, first) ↦
            try_terms-Affordable wanted urgency ticks_left c p none terms
              (first ∙ (rw (first, terms_for) at e))
        | inl nothing ↦
            try_terms-Affordable wanted urgency ticks_left c p (some 1) terms
              (guarded-eq_some _ _ (rw (nothing, terms_for) at e))
      ]

  propose_one-Kept :
      (wanted : Resource → ℕ) (urgency : Resource → Urgency) (ticks_left : Option ℕ) (c : Candidate)
      (p : Proposal)
      → IsInPlay model c.station_id
      → ProposalKept p
      → ProposalKept (propose_one snap wanted urgency ticks_left c p)
  unfolding propose_one
  propose_one-Kept wanted urgency ticks_left c p partner k =
      elim (Bool-cases (p.turn.budget == 0 || p.room == 0)) [
        | inl stop ↦ rw stop k
        | inr go ↦ elim (Option-cases (terms_for snap wanted urgency ticks_left c p)) [
          | inl nothing ↦ rw (go, nothing) k
          | inr ((give, receive), found) ↦ elim (Bool-cases (ttl_of snap == 0)) [
            | inl late ↦ rw (go, found, late) k
            | inr lives ↦
                let (gives, held) =
                  terms_for-Affordable wanted urgency ticks_left c p (give, receive) found in
                rw (go, found, lives)
                  (propose-Kept c give receive p partner (ground arith) lives gives held k)
          ]
        ]
      ]

  propose_each-Kept :
      (wanted : Resource → ℕ) (urgency : Resource → Urgency) (ticks_left : Option ℕ)
      (candidates : List Candidate) (p : Proposal)
      → All (λ (c : Candidate). IsInPlay model c.station_id) candidates
      → ProposalKept p
      → ProposalKept (propose_each snap wanted urgency ticks_left candidates p)
  unfolding propose_each
  propose_each-Kept wanted urgency ticks_left [] p partners k = k
  propose_each-Kept wanted urgency ticks_left (c ∷ candidates) p partners k =
      propose_each-Kept wanted urgency ticks_left candidates
        (propose_one snap wanted urgency ticks_left c p) partners.1
        (propose_one-Kept wanted urgency ticks_left c p partners.0 k)

  candidates-IsInPlay :
      (memory : PolicyMemory) (urgency : Resource → Urgency) (wanted : Resource → ℕ)
      (surplus : Bundle) (pending : ℕ → Resource → Bool)
      → memory.counterparties ≡ model
      → All
          (λ (c : Candidate). IsInPlay model c.station_id)
          (rank_counterparties memory.counterparties urgency wanted surplus snap.tick pending
            (some snap.me.specialty))
  candidates-IsInPlay memory urgency wanted surplus pending same =
      let apt =
        rank_counterparties-IsApt memory.counterparties urgency wanted surplus snap.tick pending
          (some snap.me.specialty) in
      subst
        (λ m.
          All (λ (c : Candidate). IsInPlay m c.station_id)
            (rank_counterparties memory.counterparties urgency wanted surplus snap.tick pending
              (some snap.me.specialty)))
        same
        (All-both (IsApt memory.counterparties wanted surplus pending)
          (IsApt memory.counterparties wanted surplus pending)
          (λ (c : Candidate). IsInPlay memory.counterparties c.station_id)
          (rank_counterparties memory.counterparties urgency wanted surplus snap.tick pending
            (some snap.me.specialty))
          (λ c a _. a.known) apt apt)

  -- Offers keep the balance, and the surplus that is left is in stock.
  pub propose_offers-Kept :
      (memory : PolicyMemory) (reserve surplus deficit : Bundle) (urgency : Resource → Urgency)
      (ticks_left : Option ℕ) (t : Turn)
      → memory.counterparties ≡ model
      → Kept model snap limit stock t
      → ((r : Resource) → get surplus r ≤ get t.available r)
      → let res = propose_offers snap memory reserve surplus deficit urgency ticks_left t in
        Kept model snap limit stock res.0 × ((r : Resource) → get res.1 r ≤ get res.0.available r)
  unfolding propose_offers
  propose_offers-Kept memory reserve surplus deficit urgency ticks_left t same k below =
      let outgoing = outgoing_open_offers snap in
      let room = snap.rules.max_open_outgoing_offers - length outgoing in
      elim (Bool-cases (room == 0)) [
        | inl full ↦ rw full (k, below)
        | inr some_room ↦
            let wanted = wanted_quantities snap t.available reserve deficit in
            rw some_room (
              propose_each-Kept wanted urgency ticks_left
                (rank_counterparties memory.counterparties urgency wanted surplus snap.tick
                  (is_pending outgoing) (some snap.me.specialty))
                (record {
                  turn = t;
                  surplus = surplus;
                  preserve_normal = has_normal_offers snap;
                  room = room;
                })
                (candidates-IsInPlay memory urgency wanted surplus (is_pending outgoing) same)
                (k, below))
      ]
