-- ===== src/Ctl/Http.antt =====
-- The HTTP transport behind the client: http.NewRequestWithContext and http.Client.Do together.
use dezhan.Base.{ℕ, List, Result, Exec}
use dezhan.Text.{Text}
use dezhan.Dict.{Dict}

pub record Request : Type 0 where
  pub method : Text
  pub url : Text
  pub headers : Dict Text
  pub body : Text

-- Reading the body may fail.
pub record Response : Type 0 where
  pub status : ℕ
  pub headers : Dict (List Text)
  pub body : Result Text Text

pub record Http : Type 1 where
  pub World : Type 0
  pub send : Request → Exec World Text Response
