-- ===== src/Database/Users.antt =====
-- Rows of the tables `users`, `refresh_token_sessions` and `referral_rewards`
-- (services/common/db/metadata.py).
use tokenization.Common.{ℕ, Option}
use tokenization.Database.Rows.{Text}

pub data Role : Type 0 where
  user seller admin auditor : Role

pub record User : Type 0 where
  pub id : ℕ
  pub email : Option Text
  pub password_hash : Option Text
  pub display_name : Text
  pub role : Role
  pub totp_secret : Option Text
  pub referrer_id : Option ℕ
  pub referral_code : Text
  pub created_at : ℕ
  pub updated_at : ℕ
  pub deleted_at : Option ℕ

pub record RefreshSession : Type 0 where
  pub id : ℕ
  pub user_id : ℕ
  pub token_jti : ℕ
  pub replaced_by_jti : Option ℕ
  pub expires_at : ℕ
  pub revoked_at : Option ℕ
  pub created_at : ℕ
  pub updated_at : ℕ

-- The only type of reward is the signup bonus, and it is inserted as credited.
pub record ReferralReward : Type 0 where
  pub id : ℕ
  pub referrer_id : ℕ
  pub referred_user_id : ℕ
  pub amount_sat : ℕ
  pub credited_at : ℕ
  pub created_at : ℕ
