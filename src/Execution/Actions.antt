-- ===== src/Execution/Actions.antt =====
-- The actions of bazaar_client/execution/actions.py.
use spaceport_bazzar_client.Base.{ℕ, Bool}
use spaceport_bazzar_client.Domain.Bundle.{Resource, Bundle, is_zero}
use spaceport_bazzar_client.Domain.Types.{ObjectId}

pub record AdvertiseAction : Type 0 where
  pub selling : Resource → Bool
  pub seeking : Resource → Bool
  pub expires_tick : ℕ

pub record OfferAction : Type 0 where
  pub recipient_id : ℕ
  pub give : Bundle
  pub receive : Bundle
  pub expires_tick : ℕ

-- `OfferAction.is_gift`
unfoldable pub is_gift : OfferAction → Bool
is_gift a = is_zero a.receive

pub data Action : Type 0 where
  advertise : AdvertiseAction → Action
  offer : OfferAction → Action
  accept withdraw : ObjectId → Action
  sync : Action
