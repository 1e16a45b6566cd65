-- ===== src/Gsp/Rows.antt =====
-- The tables behind a GSTIN's connection to GSTN (backend/app/gsp/service.py,
-- backend/app/models/tables.py), with the consents in flight, which the process keeps in memory,
-- and the Redis store of the lockouts. Instants are seconds; users are the texts of their ids.
use niyam_ai.Base.{
  ℕ, Bool, not, ◌&&◌, Option, none, some, List, [], ◌∷◌, ◌++◌, Text, ◌==◌, is_some, find_where,
}
use niyam_ai.Auth.Redis.{Redis}
use niyam_ai.Gsp.Retry.{GspErrorKind, GspError}

pub record GstinProfile : Type 0 where
  pub id : ℕ
  pub firm_id : ℕ
  pub client_id : ℕ
  pub gstin : Text

pub record InFlight : Type 0 where
  pub inflight_id : ℕ
  pub firm_id : ℕ
  pub gstin_profile_id : ℕ
  pub gstin : Text
  pub user_id : Text
  pub vendor_request_id : Text
  pub created_at : ℕ

pub data RevokedReason : Type 0 where
  reconnect user_disconnected consent_revoked_reason session_expired_reason : RevokedReason

pub record GspSession : Type 0 where
  pub id : ℕ
  pub firm_id : ℕ
  pub gstin_profile_id : ℕ
  pub token_ciphertext : Text
  pub key_version : ℕ
  pub vendor_context : Text
  pub issued_at : ℕ
  pub expires_at : ℕ
  pub connected_by : Text
  pub revoked_at : Option ℕ
  pub revoked_reason : Option RevokedReason

pub data Endpoint : Type 0 where
  consent_endpoint confirm_endpoint gstr2b_endpoint : Endpoint

pub data LogError : Type 0 where
  initiate_cooldown_error : LogError
  kind_error : GspErrorKind → LogError

pub record CallLog : Type 0 where
  pub firm_id : ℕ
  pub gstin_profile_id : ℕ
  pub endpoint : Endpoint
  pub period : Option Text
  pub succeeded : Bool
  pub http_status : Option ℕ
  pub error_kind : Option LogError

pub data ConsentAction : Type 0 where
  connect_consent disconnect_consent revoked_by_vendor : ConsentAction

pub record ConsentLog : Type 0 where
  pub firm_id : ℕ
  pub client_id : ℕ
  pub granted_at : ℕ
  pub revoked_at : Option ℕ
  pub granted_by : Option Text
  pub action : ConsentAction

pub data Action : Type 0 where
  gsp_otp_lockout gsp_connect gsp_reconnect gsp_disconnect : Action
  gsp_consent_revoked gsp_session_expired : Action

pub record AuditEntry : Type 0 where
  pub firm_id : ℕ
  pub actor_user_id : Option Text
  pub action : Action
  pub entity_id : ℕ

pub record Office (r : Redis) : Type 0 where
  pub profiles : List GstinProfile
  pub inflight : List InFlight
  pub sessions : List GspSession
  pub calls : List CallLog
  pub consents : List ConsentLog
  pub audit : List AuditEntry
  pub redis : r.Store

-- `WHERE id = :gid AND firm_id = :fid`
abbrev pub profile_at : ℕ → ℕ → GstinProfile → Bool
profile_at firm id p = p.id == id && p.firm_id == firm

-- `WHERE gstin_profile_id = :gpid AND revoked_at IS NULL`, in a session of the firm
abbrev pub is_live : ℕ → ℕ → GspSession → Bool
is_live firm profile row =
    row.firm_id == firm && row.gstin_profile_id == profile && not (is_some row.revoked_at)

module _ {r : Redis} where
  -- `_load_gstin`; `none` is GstinNotInFirm.
  unfoldable pub load_gstin : ℕ → ℕ → Office r → Option Text
  load_gstin firm id o = elim (find_where (profile_at firm id) o.profiles) [
    | none ↦ none
    | some p ↦ some p.gstin
  ]

  -- `_log_call`
  unfoldable pub log_call :
      ℕ → ℕ → Endpoint → Option Text → Option ℕ → Option LogError → Office r → Office r
  log_call firm profile endpoint period status error o = record o {
    calls =
        o.calls
        ++ (record {
          firm_id = firm;
          gstin_profile_id = profile;
          endpoint = endpoint;
          period = period;
          succeeded = not (is_some error);
          http_status = status;
          error_kind = error;
        })
          ∷ [];
  }

  abbrev pub log_failure : ℕ → ℕ → Endpoint → Option Text → GspError → Office r → Office r
  log_failure firm profile endpoint period e o =
      log_call firm profile endpoint period e.http_status (some (kind_error e.kind)) o

  -- `audit.record`
  unfoldable pub record_action : ℕ → Option Text → Action → ℕ → Office r → Office r
  record_action firm user action id o = record o {
    audit =
        o.audit
        ++ (record { firm_id = firm; actor_user_id = user; action = action; entity_id = id }) ∷ [];
  }

  -- `INSERT INTO consent_log … SELECT … FROM gstin_profile gp WHERE gp.id = :gpid`
  unfoldable pub log_consent :
      ℕ → ℕ → ℕ → Option ℕ → Option Text → ConsentAction → Office r → Office r
  log_consent now firm profile revoked user action o =
      elim (find_where (profile_at firm profile) o.profiles) [
        | none ↦ o
        | some p ↦ record o {
          consents =
              o.consents
              ++ (record {
                firm_id = p.firm_id;
                client_id = p.client_id;
                granted_at = now;
                revoked_at = revoked;
                granted_by = user;
                action = action;
              })
                ∷ [];
        }
      ]
