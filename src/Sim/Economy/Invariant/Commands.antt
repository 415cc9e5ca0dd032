-- ===== src/Sim/Economy/Invariant/Commands.antt =====
-- Every command (`execute` of bazaar_sim/economy.py) keeps the economy valid.
use spaceport_bazzar_client.Base.{
  nat_eq, Option-cases, All-append, All-imp, All-map, ℕ, ◌+◌, ◌≤◌, ◌≡◌, refl, inl, inr, false,
  Option, none, some, List, [], ◌∷◌, ◌++◌, arith,
}
use spaceport_bazzar_client.Domain.Bundle.{resource_eq, Bundle}
use spaceport_bazzar_client.Domain.Types.{
  OfferStatus, ObjectId, object_eq, is_open, Offer, Transaction, Advertisement,
}
use spaceport_bazzar_client.Execution.Actions.{OfferAction, Action}
use spaceport_bazzar_client.Sim.Station.{SimStation, IsSound}
use spaceport_bazzar_client.Sim.Economy.{
  CommandOutcome, Economy, station_of, count_of, close_one, close, post_advertisement, posted,
  post_offer, remove_ad, settlement, transaction_of, counted, execute,
}
use spaceport_bazzar_client.Sim.Economy.Trade.{
  traded_at, station_of-settlement, settlement_known, traded_at-none,
}
use spaceport_bazzar_client.Sim.Economy.Ledger.{traded_at-IsSound}
use spaceport_bazzar_client.Sim.Economy.Effect.{IsAdmitted, IsPostable, Effect}
use spaceport_bazzar_client.Sim.Economy.Effect.Commands.{execute-Effect}
use spaceport_bazzar_client.Sim.Economy.Invariant.{IsKnown, IsFormed, IsValid}
use spaceport_bazzar_client.Sim.Economy.Invariant.Offers.{
  open_count-close-le, Unique-close, close_one-IsFormed, open_count-posted, Unique-posted,
}
use spaceport_bazzar_client.Sim.Economy.Invariant.Counting.{count_of-set_count, IsFormed-later}

module _ (starts : ℕ → Bundle) (sid : ℕ) (e : Economy) (v : IsValid starts e) where
  counted-IsValid : IsAdmitted sid e → IsValid starts (counted sid e)
  unfolding counted
  counted-IsValid adm = record {
    sound = v.sound;
    formed =
        All-imp (IsFormed e) (IsFormed (counted sid e)) e.offers
          (λ o. IsFormed-later e (counted sid e) o (omega arith) refl (λ x k. k)) v.formed;
    unique = v.unique;
    room = v.room;
    quota = λ x. ground (
      arith,
      v.quota x,
      adm.in_quota,
      count_of-set_count x sid (count_of sid e.command_counts + 1) e.command_counts,
    );
  }

-- The remaining effects, from a state in which the command has been counted.
module _ (starts : ℕ → Bundle) (sid : ℕ) (c : Economy) (v : IsValid starts c) where
  -- Advertisements, transactions, versions and spent ids do not matter to validity.
  pub aside-IsValid :
      (ads : List Advertisement) (txns : List Transaction) (version n : ℕ)
      → c.next_id ≤ n
      → IsValid starts (record c {
        advertisements = ads;
        transactions = txns;
        world_version = version;
        next_id = n;
      })
  aside-IsValid ads txns version n ids =
      let c' = record c {
        advertisements = ads;
        transactions = txns;
        world_version = version;
        next_id = n;
      } in
      record {
        sound = v.sound;
        formed =
            All-imp (IsFormed c) (IsFormed c') c.offers
              (λ o. IsFormed-later c c' o ids refl (λ x k. k)) v.formed;
        unique = v.unique;
        room = v.room;
        quota = v.quota;
      }

  closed-IsValid :
      (oid : ObjectId) (status : OfferStatus) (t : Option ObjectId)
      → is_open status ≡ false
      → IsValid starts (record c { offers = close oid status t c.tick c.offers })
  closed-IsValid oid status t closed =
      let c' = record c { offers = close oid status t c.tick c.offers } in
      record {
        sound = v.sound;
        formed =
            All-map (IsFormed c) (IsFormed c') (close_one oid status t c.tick) c.offers
              (λ o h.
                IsFormed-later c c' (close_one oid status t c.tick o) (omega arith) refl (λ x k. k)
                  (close_one-IsFormed oid status t c.tick c o closed h))
              v.formed;
        unique = Unique-close oid status t c.tick c.offers v.unique;
        room =
            λ x. omega (arith, v.room x, open_count-close-le oid status t c.tick x c.offers closed);
        quota = v.quota;
      }

  IsSound-after :
      (o : Offer) (x : ℕ) (s : SimStation)
      → traded_at o x (station_of x c.stations) ≡ some s
      → IsSound c.rules (starts x) s
  IsSound-after o x s h = elim (Option-cases (station_of x c.stations)) [
    | inl missing ↦ absurd (cc (traded_at-none o x, missing))
    | inr (t, found) ↦
        traded_at-IsSound c.rules (starts x) o x t s (v.sound x t found) (rw found at h)
  ]

  moved-IsValid :
      (o : Offer) (l : List SimStation)
      → settlement o c.stations ≡ some l
      → IsValid starts (record c { stations = l; next_id = c.next_id + 1 })
  moved-IsValid o l e =
      let c' = record c { stations = l; next_id = c.next_id + 1 } in
      record {
        sound =
            λ x s found. IsSound-after o x s (rw (station_of-settlement o x c.stations e) at found);
        formed =
            All-imp (IsFormed c) (IsFormed c') c.offers
              (λ p.
                IsFormed-later c c' p (omega arith) refl (λ x. settlement_known o x c.stations e))
              v.formed;
        unique = v.unique;
        room = v.room;
        quota = v.quota;
      }

  posted-IsValid :
      (a : OfferAction)
      → IsKnown sid c.stations
      → IsPostable sid a c
      → IsValid starts (post_offer sid a c).1
  unfolding post_offer
  posted-IsValid a k p =
      let c' = (post_offer sid a c).1 in
      record {
        sound = v.sound;
        formed =
            All-append (IsFormed c') c.offers (posted sid a c ∷ [])
              (All-imp (IsFormed c) (IsFormed c') c.offers
                (λ o. IsFormed-later c c' o (omega arith) refl (λ x q. q)) v.formed)
              (
                record {
                  number = c.next_id;
                  numbered = refl;
                  given_out = omega arith;
                  distinct = p.distinct;
                  proposer_known = k;
                  recipient_known = λ e. cc (p.known, e);
                  gives = p.gives;
                  live = λ now. p.later;
                  dated = refl;
                },
                tt,
              );
        unique = Unique-posted sid a c c.offers v.formed v.unique;
        room = λ x. ground (arith, v.room x, p.room, open_count-posted x sid a c c.offers);
        quota = v.quota;
      }

counted-IsPostable :
    (sid : ℕ) (a : OfferAction) (e : Economy)
    → IsPostable sid a e
    → IsPostable sid a (counted sid e)
unfolding counted
counted-IsPostable sid a e p = record {
  partner = p.partner;
  known = p.known;
  partner_alive = p.partner_alive;
  distinct = p.distinct;
  gives = p.gives;
  later = p.later;
  ttl = p.ttl;
  ends = p.ends;
  caller = p.caller;
  caller_known = p.caller_known;
  covers = p.covers;
  room = p.room;
}

Effect-IsValid :
    (starts : ℕ → Bundle) (sid : ℕ) (action : Action) (e : Economy) (out : CommandOutcome)
    (e' : Economy)
    → IsValid starts e
    → Effect sid action e out e'
    → IsValid starts e'
unfolding counted post_advertisement
Effect-IsValid starts sid action e out e' v (Effect.unprocessed _ same) = rw same v
Effect-IsValid starts sid action e out e' v (Effect.failed adm _ same) =
    rw same (counted-IsValid starts sid e v adm)
Effect-IsValid starts sid action e out e' v (Effect.advertised adm a _ _ _ same) =
    let w = counted-IsValid starts sid e v adm in
    let ads = (post_advertisement sid a (counted sid e)).1.advertisements in
    rw same (
      aside-IsValid starts sid (counted sid e) w ads e.transactions e.world_version (e.next_id + 1)
        (omega arith))
Effect-IsValid starts sid action e out e' v (Effect.posted_offer adm a _ p _ same) = rw same (
    posted-IsValid starts sid (counted sid e) (counted-IsValid starts sid e v adm) a
      (λ gone. cc (adm.known, gone)) (counted-IsPostable sid a e p))
Effect-IsValid starts sid action e out e' v (Effect.took_down adm posted _ _ _ _ same) =
    let w = counted-IsValid starts sid e v adm in
    rw same (
      aside-IsValid starts sid (counted sid e) w
        (remove_ad posted.advertisement_id e.advertisements) e.transactions e.world_version
        e.next_id (omega arith))
Effect-IsValid starts sid action e out e' v (Effect.withdrew adm o _ _ _ _ _ _ same) = rw same (
    closed-IsValid starts sid (counted sid e) (counted-IsValid starts sid e v adm) o.offer_id
      OfferStatus.withdrawn none refl)
Effect-IsValid starts sid action e out e' v (Effect.accepted adm o _ _ l writes _ same) =
    let c = counted sid e in
    let m = moved-IsValid starts sid c (counted-IsValid starts sid e v adm) o l writes in
    let t = some (ObjectId.txn e.next_id) in
    let c' = record c { stations = l; next_id = e.next_id + 1 } in
    let n = closed-IsValid starts sid c' m o.offer_id OfferStatus.accepted t refl in
    rw same (
      aside-IsValid starts sid
        (record c' { offers = close o.offer_id OfferStatus.accepted t e.tick e.offers }) n
        e.advertisements (e.transactions ++ transaction_of o c ∷ []) e.world_version (e.next_id + 1)
        (omega arith))

-- Every command that does not raise keeps the economy valid, whatever its outcome: the ledgers of
-- all stations balance, offers are well formed with distinct ids, and no station has more open
-- offers or more commands in a tick than the rules allow.
pub execute-IsValid :
    (starts : ℕ → Bundle) (sid : ℕ) (action : Action) (e : Economy) (out : CommandOutcome)
    (e' : Economy)
    → IsValid starts e
    → execute sid action e ≡ some (out, e')
    → IsValid starts e'
execute-IsValid starts sid action e out e' v h =
    Effect-IsValid starts sid action e out e' v (execute-Effect sid action e out e' h)
