-- ===== src/Assets/Service/Tokenizes.antt =====
-- Tokenizing an asset: what the handler leaves behind.
use tokenization.Common.{
  ℕ, ◌≡◌, true, Option, Option, some, [], is_some, length, get_or, if◌then◌else◌,
}
use tokenization.Common.Text.{strip, lower, from_hex}
use tokenization.Database.Rows.{Text}
use tokenization.Database.Assets.{Asset, Token}
use tokenization.Database.Model.{Db}
use tokenization.Database.Tx.{Result, ok, err, Conn, Tx, continue, ◌>>=◌, pure, at_rest}
use tokenization.Database.Tx.Quiet.{Quiet}
use tokenization.Assets.Store.{Issue}
use tokenization.Assets.Minting.{Minting}
use tokenization.Assets.Minting.Issued.{Issued}
use tokenization.Assets.Service.{
  Moment, Principal, Tokenization, Node, audit, or_persist_failed, issue_of,
}

-- What an answered request has stored: the node answered with the Liquid asset, which is named by 64 hexadecimal
-- digits, and the issue of that asset to the principal, of the supply and at the price of the request, is
-- committed.
pub record IsTokenized (node : Node) (now asset_id : ℕ) (principal : Principal)
    (body : Tokenization) (db : Db) (c : Conn) : Type 0 where
  pub answer : Option Text
  pub answered : node body.total_supply ≡ some answer
  pub issue : Issue
  pub named : issue.liquid_asset_id ≡ lower (strip (get_or answer []))
  pub hex : is_some (from_hex issue.liquid_asset_id) ≡ true
  pub sized : length issue.liquid_asset_id ≡ 64
  pub of_asset : issue.asset_id ≡ asset_id
  pub to_principal : issue.owner_id ≡ principal.id
  pub supplied : issue.total_supply ≡ body.total_supply
  pub circulating : issue.circulating_supply ≡ body.total_supply
  pub at_price : issue.unit_price_sat ≡ body.unit_price_sat
  pub issued : Issued now issue db c.committed
  pub rest : c ≡ at_rest c.committed

-- Answered, or refused with the database as it was.
abbrev pub Settles : {A : Type 0} → (Conn → Type 0) → Db → Result A × Conn → Type 0
Settles P db (ok a, c) = P c
Settles P db (err e, c) = c ≡ at_rest db

-- The name of the Liquid asset is what the node answered.
record IsNamed (node : Node) (n : ℕ) (liquid : Text) : Type 0 where
  pub answer : Option Text
  pub answered : node n ≡ some answer
  pub named : liquid ≡ lower (strip (get_or answer []))
  pub hex : is_some (from_hex liquid) ≡ true
  pub sized : length liquid ≡ 64

module _ (issue_asset : Node) (at : Moment) (asset_id : ℕ) (principal : Principal)
    (body : Tokenization) (db : Db) where
  module _ (liquid : Text) (name : IsNamed issue_asset body.total_supply liquid) where
    abbrev issue : Issue
    issue = issue_of body asset_id principal liquid

    -- What is left of the handler once the transaction has ended.
    abbrev finish :
        Result (Option (Asset × Option Token)) × Conn → Result (Asset × Option Token) × Conn
    finish out =
        let (r, c) =
          continue out.0
            (λ row. (if is_some row then audit at.audited else pure tt) >>= λ _. pure row) out.1 in
        or_persist_failed r (at_rest c.committed)
