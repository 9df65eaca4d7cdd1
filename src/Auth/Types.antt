-- ===== src/Auth/Types.antt =====
-- The requests and responses of auth.go.
use drasl.Prelude.{ℕ, Bool, Option, List, Bytes}

pub record Profile : Type 0 where
  pub id : Bytes
  pub name : Bytes

pub record Agent : Type 0 where
  pub name : Bytes
  pub version : ℕ

-- `Properties` holds names and values.
pub record UserResponse : Type 0 where
  pub id : Bytes
  pub properties : List (Bytes × Bytes)

pub record AuthenticateRequest : Type 0 where
  pub username : Bytes
  pub password : Bytes
  pub client_token : Option Bytes
  pub agent : Option Agent
  pub request_user : Bool

pub record AuthenticateResponse : Type 0 where
  pub access_token : Bytes
  pub client_token : Bytes
  pub selected_profile : Option Profile
  pub available_profiles : Option (List Profile)
  pub user : Option UserResponse

pub record RefreshRequest : Type 0 where
  pub access_token : Bytes
  pub client_token : Bytes
  pub request_user : Bool

pub record RefreshResponse : Type 0 where
  pub access_token : Bytes
  pub client_token : Bytes
  pub selected_profile : Profile
  pub available_profiles : List Profile
  pub user : Option UserResponse

-- `validateRequest` and `invalidateRequest`
pub record TokenRequest : Type 0 where
  pub access_token : Bytes
  pub client_token : Bytes

pub record SignoutRequest : Type 0 where
  pub username : Bytes
  pub password : Bytes
