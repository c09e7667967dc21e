-- ===== src/Market/Integrity/Link.antt =====
-- The link of an escrow and its trade.
use tokenization.Common.{
  ℕ, ◌+◌, ◌≤◌, ◌≡◌, inl, inr, Bool, true, List, [], ◌∷◌, ◌++◌, arith, ◌==◌, ==_iff, Bool-cases,
  Member,
}
use tokenization.Common.Table.{
  update_where, count_where, sum_by, Updated, sum_by-update_one, count_where_mono, unique_row,
  Origin, Member-update_where, Member-append_one, none_counted, count_where-update_where,
  count_where-append,
}
use tokenization.Database.Model.{Trade, Escrow, TokenBalance}
use tokenization.Market.Integrity.{
  locked_by, trade_status, has_trade_id, is_escrow_of, IsKeyed, IsLinked,
}

id_eq : (k : ℕ) (t : Trade) → t.id ≡ k → has_trade_id k t ≡ true
id_eq k t e = ground arith

of_eq : (k : ℕ) (e : Escrow) → e.trade_id ≡ k → is_escrow_of k e ≡ true
of_eq k e h = ground arith

module _ (k : ℕ) (trades : List Trade) (escrows : List Escrow) (p : Trade → Bool)
    (g : Trade → Trade) (q : Escrow → Bool) (h : Escrow → Escrow)
    (p_id : (t : Trade) → p t ≡ true → t.id ≡ k) (g_id : (t : Trade) → (g t).id ≡ t.id)
    (q_id : (e : Escrow) → Member e escrows → q e ≡ true → e.trade_id ≡ k)
    (h_id : (e : Escrow) → (h e).trade_id ≡ e.trade_id)
    (fits : (t : Trade) (e : Escrow) → (g t).status ≡ trade_status (h e).status) where
  -- Both rows of the trade `k` are updated, to statuses that go together.
  pub relink :
      (r : Trade) (s : Escrow)
      → count_where (has_trade_id k) trades ≤ 1
      → count_where (is_escrow_of k) escrows ≤ 1
      → IsLinked trades escrows
      → Updated p g trades r
      → Updated q h escrows s
      → IsLinked (update_where p g trades) (update_where q h escrows)
  relink r s tk ek linked ut ue e me t mt same =
      both (Member-update_where q h escrows e me) (Member-update_where p g trades t mt)
    where
      both : Origin q h escrows e → Origin p g trades t → t.status ≡ trade_status e.status
      both oe ot = elim oe.change [
        | inl (qe, e_eq) ↦ elim ot.change [
          | inl (pt, t_eq) ↦ rw (e_eq, t_eq) (fits ot.row oe.row)
          | inr (pt, t_eq) ↦
              let ids : ot.row.id ≡ k = cc (q_id oe.row oe.found qe, h_id oe.row) in
              let one =
                unique_row (has_trade_id k) trades ot.row ut.old tk ot.found ut.found
                  (id_eq k ot.row ids) (id_eq k ut.old (p_id ut.old ut.meets)) in
              let clash : p ot.row ≡ true = rw one ut.meets in absurd (grind arith)
        ]
        | inr (qe, e_eq) ↦ elim ot.change [
          | inl (pt, t_eq) ↦
              let ids : oe.row.trade_id ≡ k = cc (p_id ot.row pt, g_id ot.row) in
              let one =
                unique_row (is_escrow_of k) escrows oe.row ue.old ek oe.found ue.found
                  (of_eq k oe.row ids) (of_eq k ue.old (q_id ue.old ue.found ue.meets)) in
              let clash : q oe.row ≡ true = rw one ue.meets in absurd (grind arith)
          | inr (pt, t_eq) ↦ rw (e_eq, t_eq) (linked oe.row oe.found ot.row ot.found (cc))
        ]
      ]

-- An escrow alone is updated, to a status that the same trade status goes with.
pub relink_escrow :
    (trades : List Trade) (escrows : List Escrow) (q : Escrow → Bool) (h : Escrow → Escrow)
    → ((e : Escrow) → (h e).trade_id ≡ e.trade_id)
    → ((e : Escrow) → q e ≡ true → trade_status (h e).status ≡ trade_status e.status)
    → IsLinked trades escrows
    → IsLinked trades (update_where q h escrows)
relink_escrow trades escrows q h h_id same linked e me t mt ids =
    let o = Member-update_where q h escrows e me in
    elim o.change [
      | inl (qe, e_eq) ↦
          rw (e_eq, same o.row qe) (linked o.row o.found t mt (rw (e_eq, h_id o.row) at ids))
      | inr (qe, e_eq) ↦ rw e_eq (linked o.row o.found t mt (rw e_eq at ids))
    ]

-- A new trade that no escrow names.
pub link_trade :
    (trades : List Trade) (escrows : List Escrow) (balances : List TokenBalance) (t : Trade)
    → IsKeyed trades escrows balances
    → count_where (has_trade_id t.id) trades ≡ 0
    → IsLinked trades escrows
    → IsLinked (trades ++ t ∷ []) escrows
link_trade trades escrows balances t keyed fresh linked e me u mu ids =
    elim (Member-append_one trades t u mu) [
      | inl old ↦ linked e me u old ids
      | inr new ↦
          let at_id : t.id ≡ e.trade_id = rw new at ids in
          let z : count_where (has_trade_id e.trade_id) trades ≡ 0 = rw (← at_id) fresh in
          absurd (omega (arith, keyed.escrow_trade e me))
    ]

-- A new escrow of the newest trade.
pub link_escrow :
    (trades : List Trade) (escrows : List Escrow) (t : Trade) (e : Escrow)
    → e.trade_id ≡ t.id
    → count_where (has_trade_id t.id) trades ≡ 0
    → t.status ≡ trade_status e.status
    → IsLinked (trades ++ t ∷ []) escrows
    → IsLinked (trades ++ t ∷ []) (escrows ++ e ∷ [])
link_escrow trades escrows t e own fresh st linked f mf u mu ids =
    elim (Member-append_one escrows e f mf) [
      | inl old ↦ linked f old u mu ids
      | inr new ↦ elim (Member-append_one trades t u mu) [
        | inl u_old ↦
            let at_id : u.id ≡ t.id = rw (new, own) at ids in
            absurd (none_counted (has_trade_id t.id) trades u fresh u_old (id_eq t.id u at_id))
        | inr u_new ↦ rw (new, u_new) st
      ]
    ]

module _ (token k : ℕ) (trades : List Trade) (p : Trade → Bool) (g : Trade → Trade) where
  -- One trade is updated, so the locked tokens move by its share.
  pub locked-update :
      (r : Trade)
      → ((t : Trade) → p t ≡ true → has_trade_id k t ≡ true)
      → count_where (has_trade_id k) trades ≤ 1
      → (u : Updated p g trades r)
      → sum_by (locked_by token) (update_where p g trades) + locked_by token u.old
        ≡ sum_by (locked_by token) trades + locked_by token (g u.old)
  locked-update r p_id key u =
      sum_by-update_one (locked_by token) p g trades u.old
        (omega (arith, count_where_mono p (has_trade_id k) trades p_id)) u.meets u.found

module _ (trades : List Trade) (escrows : List Escrow) (balances : List TokenBalance)
    (keyed : IsKeyed trades escrows balances) where
  pub key-update_trade :
      (p : Trade → Bool) (g : Trade → Trade)
      → ((t : Trade) → (g t).id ≡ t.id)
      → IsKeyed (update_where p g trades) escrows balances
  key-update_trade p g g_id =
      let same : (k : ℕ)
          → count_where (has_trade_id k) (update_where p g trades)
            ≡ count_where (has_trade_id k) trades =
        λ k. count_where-update_where (has_trade_id k) p g trades (λ t. rw (g_id t)) in
      record {
        balance_key = keyed.balance_key;
        trade_key = λ k. rw (same k) (keyed.trade_key k);
        escrow_key = keyed.escrow_key;
        escrow_trade = λ e m. rw (same e.trade_id) (keyed.escrow_trade e m);
      }

  pub key-update_escrow :
      (q : Escrow → Bool) (h : Escrow → Escrow)
      → ((e : Escrow) → (h e).trade_id ≡ e.trade_id)
      → IsKeyed trades (update_where q h escrows) balances
  key-update_escrow q h h_id = record {
    balance_key = keyed.balance_key;
    trade_key = keyed.trade_key;
    escrow_key = λ k.
        rw (count_where-update_where (is_escrow_of k) q h escrows (λ e. rw (h_id e)))
          (keyed.escrow_key k);
    escrow_trade = λ e m. owner e (Member-update_where q h escrows e m);
  }
    where
      owner : (e : Escrow) → Origin q h escrows e → 1 ≤ count_where (has_trade_id e.trade_id) trades
      owner e o = elim o.change [
        | inl (qe, e_eq) ↦ rw (e_eq, h_id o.row) (keyed.escrow_trade o.row o.found)
        | inr (qe, e_eq) ↦ rw e_eq (keyed.escrow_trade o.row o.found)
      ]

  pub key-insert_trade :
      (t : Trade)
      → count_where (has_trade_id t.id) trades ≡ 0
      → IsKeyed (trades ++ t ∷ []) escrows balances
  unfolding count_where
  key-insert_trade t fresh = record {
    balance_key = keyed.balance_key;
    trade_key = λ k.
        rw (count_where-append (has_trade_id k) trades (t ∷ [])) (elim (Bool-cases (t.id == k)) [
          | inl e ↦
              let i : t.id ≡ k = (==_iff t.id k).0 e in
              let z : count_where (has_trade_id k) trades ≡ 0 = rw (← i) fresh in rw e (omega arith)
          | inr e ↦ rw e (omega (arith, keyed.trade_key k))
        ]);
    escrow_key = keyed.escrow_key;
    escrow_trade = λ e m.
        rw (count_where-append (has_trade_id e.trade_id) trades (t ∷ []))
          (omega (arith, keyed.escrow_trade e m));
  }

  pub key-insert_escrow :
      (e : Escrow)
      → count_where (is_escrow_of e.trade_id) escrows ≡ 0
      → 1 ≤ count_where (has_trade_id e.trade_id) trades
      → IsKeyed trades (escrows ++ e ∷ []) balances
  unfolding count_where
  key-insert_escrow e fresh own = record {
    balance_key = keyed.balance_key;
    trade_key = keyed.trade_key;
    escrow_key = λ k.
        rw (count_where-append (is_escrow_of k) escrows (e ∷ []))
          (elim (Bool-cases (e.trade_id == k)) [
            | inl t ↦
                let i : e.trade_id ≡ k = (==_iff e.trade_id k).0 t in
                let z : count_where (is_escrow_of k) escrows ≡ 0 = rw (← i) fresh in
                rw t (omega arith)
            | inr t ↦ rw t (omega (arith, keyed.escrow_key k))
          ]);
    escrow_trade = λ f m. elim (Member-append_one escrows e f m) [
      | inl old ↦ keyed.escrow_trade f old
      | inr new ↦ rw new own
    ];
  }
