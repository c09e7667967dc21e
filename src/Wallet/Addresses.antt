-- ===== src/Wallet/Addresses.antt =====
-- The addresses of wallets (services/wallet/db.py).
use tokenization.Common.{
  ℕ, suc, Bool, true, ◌&&◌, ◌||◌, Option, List, [], ◌∷◌, ◌++◌, ◌==◌, is_some, max,
}
use tokenization.Common.Table.{select_where, update_where, fetch_one}
use tokenization.Database.Rows.{Text, same_text, WalletAddress}
use tokenization.Database.Tx.{
  Tx, ◌>>=◌, ◌>>◌, pure, query, raise_if, modify, commit, integrity_error, Unit₀,
}

-- One more than the greatest index in use: MAX of no rows is NULL.
abbrev pub after_all : List WalletAddress → ℕ
after_all [] = 0
after_all (a ∷ rows) = max (suc a.derivation_index) (after_all rows)

abbrev pub is_address_of : ℕ → WalletAddress → Bool
is_address_of wallet_id a = a.wallet_id == wallet_id

unfoldable pub get_next_derivation_index : ℕ → Tx ℕ
get_next_derivation_index wallet_id =
    query (λ db. after_all (select_where (is_address_of wallet_id) db.addresses))

-- The primary key, and two UNIQUE constraints: the address, and the index within the wallet.
abbrev pub clashes : WalletAddress → WalletAddress → Bool
clashes row a =
    a.id == row.id
    || same_text a.address row.address
    || (a.wallet_id == row.wallet_id && a.derivation_index == row.derivation_index)

unfoldable pub save_wallet_address : WalletAddress → Tx WalletAddress
save_wallet_address row = do
  taken ← query (λ db. is_some (fetch_one (select_where (clashes row) db.addresses)))
  raise_if taken integrity_error
  modify (λ db. record db { addresses = db.addresses ++ row ∷ [] })
  commit
  pure row

unfoldable pub list_imported_wallet_addresses : Tx (List WalletAddress)
list_imported_wallet_addresses = query (λ db. select_where (λ a. a.imported_to_node) db.addresses)

unfoldable pub get_wallet_address_by_address : Text → Tx (Option WalletAddress)
get_wallet_address_by_address address =
    query (λ db. fetch_one (select_where (λ a. same_text a.address address) db.addresses))

unfoldable pub mark_address_imported : ℕ → Tx Unit₀
mark_address_imported address_id = do
  modify (λ db. record db {
    addresses =
        update_where (λ a. a.id == address_id) (λ a. record a { imported_to_node = true })
          db.addresses;
  })
  commit
