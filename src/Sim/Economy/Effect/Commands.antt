-- ===== src/Sim/Economy/Effect/Commands.antt =====
-- `execute` (bazaar_sim/economy.py) meets its contract.
use mathlib.Core.Option.{some-injective}
use mathlib.Core.Path.{subst}
use spaceport_bazzar_client.Base.{
  ◌==◌, nat_eq, Bool-cases, Option-cases, >>=-eq_some, ℕ, ◌<◌, ◌≡◌, refl, sym, ap, inl, inr, true,
  false, not, ◌&&◌, ◌||◌, none, some, arith,
}
use spaceport_bazzar_client.Domain.Bundle.{resource_eq, dominates}
use spaceport_bazzar_client.Domain.Types.{
  ObjectId, object_eq, is_open, Offer, is_expired_at, Advertisement,
}
use spaceport_bazzar_client.Execution.Actions.{Action}
use spaceport_bazzar_client.Sim.Station.{SimStation}
use spaceport_bazzar_client.Sim.Economy.{
  CommandOutcome, is_ok, Economy, station_of, find_offer, precheck_action, precheck,
  post_advertisement, post_offer, remove_ad, withdraw_offer, withdraw_command, accept_between,
  accept_offer, accept_command, dispatch, counted, execute,
}
use spaceport_bazzar_client.Sim.Economy.Effect.Guards.{
  find_offer-id, find_offer_self, find_ad-id, precheck-IsAdmitted, precheck-IsPostable,
  precheck-IsPublishable, settle_offer-inversion, precheck_refuses,
}
use spaceport_bazzar_client.Sim.Economy.Effect.{IsAdmitted, find_ad, taken_back, Effect}

module _ (sid : ℕ) (e : Economy) (admitted : IsAdmitted sid e) where
  accept_between-Effect :
      (o : Offer) (out : CommandOutcome) (e' : Economy)
      → find_offer o.offer_id e.offers ≡ some o
      → o.recipient_id ≡ sid
      → is_open o.status ≡ true
      → e.tick < o.expires_tick
      → accept_between o (counted sid e) ≡ some (out, e')
      → Effect sid (Action.accept o.offer_id) e out e'
  unfolding accept_between counted
  accept_between-Effect o out e' found addressed standing live h =
      let (p, kp, h₁) = >>=-eq_some (station_of o.proposer_id e.stations) _ h in
      let (r, kr, h₂) = >>=-eq_some (station_of o.recipient_id e.stations) _ h₁ in
      elim (Bool-cases (p.failed_once || r.failed_once)) [
        | inl dead ↦ Effect.failed admitted (ground arith) (ground arith)
        | inr alive ↦
            elim (Bool-cases
              (not (dominates p.inventory o.give) || not (dominates r.inventory o.receive))) [
                | inl short ↦ Effect.failed admitted (ground arith) (ground arith)
                | inr covered ↦
                    let (l, writes, good, same) =
                      settle_offer-inversion o (counted sid e) out e' (rw (alive, covered) at h₂) in
                    Effect.accepted admitted o refl
                      (record {
                        found = found;
                        addressed = addressed;
                        standing = standing;
                        live = live;
                        proposer = p;
                        recipient = r;
                        proposer_known = kp;
                        recipient_known = kr;
                        proposer_alive = ground arith;
                        recipient_alive = ground arith;
                        proposer_covers = ground arith;
                        recipient_covers = ground arith;
                      })
                      l writes good same
              ]
      ]

  accept_command-Effect :
      (oid : ObjectId) (out : CommandOutcome) (e' : Economy)
      → accept_command sid oid (counted sid e) ≡ some (out, e')
      → Effect sid (Action.accept oid) e out e'
  unfolding accept_command accept_offer counted
  accept_command-Effect oid out e' h = elim (Option-cases (find_offer oid e.offers)) [
    | inl missing ↦ Effect.failed admitted (ground arith) (ground arith)
    | inr (o, found) ↦ elim (Bool-cases (o.recipient_id == sid)) [
      | inr other ↦ Effect.failed admitted (ground arith) (ground arith)
      | inl mine ↦ elim (Bool-cases (is_open o.status)) [
        | inr closed ↦ Effect.failed admitted (ground arith) (ground arith)
        | inl standing ↦ elim (Bool-cases (is_expired_at o e.tick)) [
          | inl late ↦ Effect.failed admitted (ground arith) (ground arith)
          | inr live ↦
              subst (λ i. Effect sid (Action.accept i) e out e')
                (find_offer-id oid e.offers o found)
                (accept_between-Effect o out e' (find_offer_self oid e.offers o found)
                  (ground arith) standing (ground arith) (ground arith))
        ]
      ]
    ]
  ]

  take_down-Effect :
      (oid : ObjectId) (posted : Advertisement) (out : CommandOutcome) (e' : Economy)
      → find_ad oid e.advertisements ≡ some posted
      → posted.station_id ≡ sid
      → is_ok out.code ≡ true
      → e' ≡ record (counted sid e) { advertisements = remove_ad oid e.advertisements }
      → Effect sid (Action.withdraw oid) e out e'
  take_down-Effect oid posted out e' found mine good same =
      let own = find_ad-id oid e.advertisements posted found in
      Effect.took_down admitted posted (ap Action.withdraw (sym own))
        (subst (λ i. find_ad i e.advertisements ≡ some posted) (sym own) found) mine good
        (subst (λ i. e' ≡ record (counted sid e) { advertisements = remove_ad i e.advertisements })
          (sym own) same)

  withdraw_offer-Effect :
      (oid : ObjectId) (o : Offer) (out : CommandOutcome) (e' : Economy)
      → find_ad oid e.advertisements ≡ none
      → find_offer oid e.offers ≡ some o
      → o.proposer_id ≡ sid
      → is_open o.status ≡ true
      → is_ok out.code ≡ true
      → e' ≡ taken_back oid (counted sid e)
      → Effect sid (Action.withdraw oid) e out e'
  withdraw_offer-Effect oid o out e' missing found mine standing good same =
      let own = find_offer-id oid e.offers o found in
      Effect.withdrew admitted o (ap Action.withdraw (sym own))
        (subst (λ i. find_ad i e.advertisements ≡ none) (sym own) missing)
        (find_offer_self oid e.offers o found) mine standing good
        (subst (λ i. e' ≡ taken_back i (counted sid e)) (sym own) same)

  withdraw_command-Effect :
      (oid : ObjectId) (out : CommandOutcome) (e' : Economy)
      → withdraw_command sid oid (counted sid e) ≡ (out, e')
      → Effect sid (Action.withdraw oid) e out e'
  unfolding withdraw_command withdraw_offer counted
  withdraw_command-Effect oid out e' h = elim (Option-cases (find_ad oid e.advertisements)) [
    | inr (a, found) ↦ elim (Bool-cases (a.station_id == sid)) [
      | inr other ↦ Effect.failed admitted (ground arith) (ground arith)
      | inl mine ↦ take_down-Effect oid a out e' found (ground arith) (ground arith) (ground arith)
    ]
    | inl missing ↦ elim (Option-cases (find_offer oid e.offers)) [
      | inl unknown ↦ Effect.failed admitted (ground arith) (ground arith)
      | inr (o, found) ↦ elim (Bool-cases (o.proposer_id == sid && is_open o.status)) [
        | inr other ↦ Effect.failed admitted (ground arith) (ground arith)
        | inl mine ↦
            withdraw_offer-Effect oid o out e' missing found (ground arith) (ground arith)
              (ground arith) (ground arith)
      ]
    ]
  ]

  dispatch-Effect :
      (s : SimStation) (action : Action) (out : CommandOutcome) (e' : Economy)
      → station_of sid e.stations ≡ some s
      → precheck_action sid s action e ≡ none
      → dispatch sid action (counted sid e) ≡ some (out, e')
      → Effect sid action e out e'
  unfolding dispatch post_advertisement post_offer counted
  dispatch-Effect s (Action.advertise a) out e' known p h =
      Effect.advertised admitted a refl (precheck-IsPublishable sid s a e p) (ground arith)
        (ground arith)
  dispatch-Effect s (Action.offer a) out e' known p h =
      Effect.posted_offer admitted a refl (precheck-IsPostable sid s a e known p) (ground arith)
        (ground arith)
  dispatch-Effect s (Action.accept oid) out e' known p h = accept_command-Effect oid out e' h
  dispatch-Effect s (Action.withdraw oid) out e' known p h =
      withdraw_command-Effect oid out e' (some-injective _ _ h)
  dispatch-Effect s Action.sync out e' known p h =
      Effect.failed admitted (ground arith) (ground arith)

pub execute-Effect :
    (sid : ℕ) (action : Action) (e : Economy) (out : CommandOutcome) (e' : Economy)
    → execute sid action e ≡ some (out, e')
    → Effect sid action e out e'
unfolding execute
execute-Effect sid action e out e' h =
    let (s, known, h₁) = >>=-eq_some (station_of sid e.stations) _ h in
    elim (Option-cases (precheck sid s action e)) [
      | inr (code, no_go) ↦
          let same = some-injective _ _ (rw no_go at h₁) in
          Effect.unprocessed
            (subst (λ p. is_ok p.0.code ≡ false) same (precheck_refuses sid s action e code no_go))
            (ap (λ p. p.1) (sym same))
      | inl passed ↦
          let (admitted, kind) = precheck-IsAdmitted sid s action e known passed in
          dispatch-Effect sid e admitted s action out e' known kind (rw passed at h₁)
    ]
