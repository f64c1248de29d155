-- ===== src/Transfer/Counted.antt =====
-- The nonces that transfers use.
use seth.Prelude.{
  ℕ, suc, ◌+◌, ◌≤◌, ◌<◌, ◌≡◌, ◌≢◌, refl, List, [], ◌∷◌, ◌++◌, inl, inr, ◌⊎◌, ⊎-cases, arith, length,
  ◌∙◌, ap, subst, sym, append-nil, append_assoc, All,
}
use seth.Prelude.Int.{ℤ, pos}
use seth.Prelude.Text.{Text}
use seth.Prelude.Words.{two63, uint64_of_int}
use seth.Prelude.Errors.{ok, Done, Result-cases}
use seth.Config.{Config}
use seth.Retry.{TxBody, Tx, legacy}
use seth.Nonce.{nonce_of, next_nonce}
use seth.Nonce.Nonces.{next_nonce_own}
use seth.Transfer.{
  TransferNode, Wallet, Keyring, Transfer, Prepared, key_at, prepare, transfer_tx, sign_transfer,
  receive, send_transfer, count_and_send, transfer_eth_from_key, big_uint64,
}
use seth.Transfer.Sent.{
  IsPrepared, prepare-IsPrepared, counted, sign_transfer-ok, prepare_complete,
  sign_transfer_complete,
}

-- Nonces of transactions that ascend from `i` and stay below `n`.
unfoldable pub Numbered : {Signed : Type 0} → (Signed → Tx) → ℕ → ℕ → List Signed → Type 0
Numbered body i n [] = i ≤ n
Numbered body i n (s ∷ ss) =
    (b : TxBody) × (price : ℤ) × (body s ≡ legacy b price)
    × (i ≤ b.nonce)
    × Numbered body (suc b.nonce) n ss

Numbered-later :
    {Signed : Type 0} (body : Signed → Tx) (i j n : ℕ) (ss : List Signed)
    → i ≤ j
    → Numbered body j n ss
    → Numbered body i n ss
unfolding Numbered
Numbered-later body i j n [] le h = omega (arith, le, h)
Numbered-later body i j n (s ∷ ss) le (b, price, q, g, h) = (b, price, q, omega (arith, le, g), h)

Numbered-append :
    {Signed : Type 0} (body : Signed → Tx) (i j n : ℕ) (ss others : List Signed)
    → Numbered body i j ss
    → Numbered body j n others
    → Numbered body i n (ss ++ others)
unfolding Numbered
Numbered-append body i j n [] others h g = Numbered-later body i j n others h g
Numbered-append body i j n (s ∷ ss) others (b, price, q, le, h) g =
    (b, price, q, le, Numbered-append body (suc b.nonce) j n ss others h g)

-- Several transfers, one after the other, whatever their outcomes.
unfoldable pub run_transfers :
    {Signed : Type 0}
    → TransferNode Signed
    → Config
    → Keyring
    → List Transfer
    → Wallet Signed
    → Wallet Signed
run_transfers node config keys [] w = w
run_transfers node config keys (t ∷ ts) w =
    run_transfers node config keys ts (transfer_eth_from_key node config keys t w).0

big_uint64_small : (i : ℕ) → suc i < two63 → big_uint64 (pos i) ≡ i
unfolding big_uint64 uint64_of_int
big_uint64_small i bound = ground arith

module _ {Signed : Type 0} (node : TransferNode Signed) (config : Config) where
  -- A transaction of the transfer, with the manager's next nonce, signed with the key.
  abbrev pub IsSigned : Keyring → Transfer → Wallet Signed → Prepared → Signed → Type 0
  IsSigned keys t w p signed =
      (key : Text) × (key_at keys.private_keys t.from_key_num ≡ ok key)
      × (node.sign key p.chain_id (transfer_tx node config t p (next_nonce p.address w.manager).0)
          ≡ inr signed)

  -- The client's state after a transfer, by how far it came.
  abbrev pub IsCounted : Keyring → Transfer → Wallet Signed → Wallet Signed → Done → Type 0
  IsCounted keys t w w' done =
      ((w' ≡ w) × (done ≢ ok tt) × ((p : Prepared) → ¬ IsPrepared node config keys t p))
      ⊎ ((p : Prepared) × IsPrepared node config keys t p
          × (((w' ≡ counted node config p.address w)
                × (done ≢ ok tt)
                × ((signed : Signed) → IsSigned keys t w p signed → node.send signed ≢ inr tt))
              ⊎ ((signed : Signed) × IsSigned keys t w p signed
                  × (node.send signed ≡ inr tt)
                  × (w' ≡ record (counted node config p.address w) { sent = w.sent ++ signed ∷ [] })
                  × (done ≡ receive node config signed))))

  -- A transfer of which no preparation holds: prepare gives no value.
  unprepared :
      (keys : Keyring) (t : Transfer)
      → ((p : Prepared) → prepare node config keys t ≢ ok p)
      → (p : Prepared) → ¬ IsPrepared node config keys t p
  unprepared keys t h p prepared = h p (prepare_complete node config keys t p prepared)

  unsigned :
      (keys : Keyring) (t : Transfer) (w : Wallet Signed) (p : Prepared)
      → IsPrepared node config keys t p
      → ((s : Signed)
          → sign_transfer node config keys t p (next_nonce p.address w.manager).0 ≡ ok s
          → node.send s ≢ inr tt)
      → (signed : Signed) → IsSigned keys t w p signed
      → node.send signed ≢ inr tt
  unsigned keys t w p prepared h signed (key, k, s) = h signed (
      sign_transfer_complete node config keys t p (next_nonce p.address w.manager).0 key signed
        prepared k s)

  -- A transfer that cannot be prepared changes nothing: the range check fails, or the node gives no
  -- chain, or the address, the network or its timeout is missing. In every other case the nonce is
  -- counted, also where the transaction that has it cannot be signed or is not taken by the node, and
  -- then nothing is sent and the transfer fails. A transaction that the node takes is added to those that
  -- were sent, and the transfer ends as the wait for its receipt does.
  pub transfer_eth_from_key-IsCounted :
      (keys : Keyring) (t : Transfer) (w : Wallet Signed)
      → IsCounted keys t w
          (transfer_eth_from_key node config keys t w).0
          (transfer_eth_from_key node config keys t w).1
  unfolding transfer_eth_from_key count_and_send send_transfer
  transfer_eth_from_key-IsCounted keys t w = elim (Result-cases (prepare node config keys t)) [
    | inr (inl (e, q)) ↦
        rw (q, transfer_eth_from_key) (inl (refl, (λ h. cc), unprepared keys t (λ p h. cc (q, h))))
    | inr (inr q) ↦
        rw (q, transfer_eth_from_key) (inl (refl, (λ h. cc), unprepared keys t (λ p h. cc (q, h))))
    | inl (p, q) ↦
        let nonce = (next_nonce p.address w.manager).0 in
        let prepared = prepare-IsPrepared node config keys t q in
        elim (Result-cases (sign_transfer node config keys t p nonce)) [
          | inr (inl (e, s)) ↦
              rw (q, s, transfer_eth_from_key, count_and_send)
                (inr (
                  p,
                  prepared,
                  inl (refl, (λ h. cc), unsigned keys t w p prepared (λ x h. cc (s, h))),
                ))
          | inr (inr s) ↦
              rw (q, s, transfer_eth_from_key, count_and_send)
                (inr (
                  p,
                  prepared,
                  inl (refl, (λ h. cc), unsigned keys t w p prepared (λ x h. cc (s, h))),
                ))
          | inl (signed, s) ↦ elim (⊎-cases (node.send signed)) [
            | inl (e, r) ↦
                let lost : (x : Signed)
                    → sign_transfer node config keys t p nonce ≡ ok x
                    → node.send x ≢ inr tt =
                  λ x h g. cc (s, h, r) in
                rw (q, s, r, transfer_eth_from_key, count_and_send, send_transfer)
                  (inr (p, prepared, inl (refl, (λ h. cc), unsigned keys t w p prepared lost)))
            | inr (u, r) ↦
                rw (q, s, r, transfer_eth_from_key, count_and_send, send_transfer)
                  (inr (
                    p,
                    prepared,
                    inr (signed, sign_transfer-ok node config keys t p nonce s, r, refl, refl),
                  ))
          ]
        ]
  ]

  -- The wallet after transfers of the address `a`, whose nonce was `i`.
  abbrev pub IsNumbered : (Signed → Tx) → Text → ℕ → ℕ → Wallet Signed → Wallet Signed → Type 0
  IsNumbered body a i n w w' =
      (new : List Signed) × (w'.sent ≡ w.sent ++ new)
      × (j : ℕ) × (nonce_of w'.manager.nonces a ≡ pos j)
      × (j ≤ n)
      × Numbered body i j new

  -- A signed transaction is the one that was signed.
  abbrev pub IsHonest : (Signed → Tx) → Type 0
  IsHonest body =
      (key : Text) (id : ℤ) (tx : Tx) (s : Signed) → node.sign key id tx ≡ inr s → body s ≡ tx

  nonce_of_tx :
      (t : Transfer) (p : Prepared) (w : Wallet Signed) (i : ℕ)
      → nonce_of w.manager.nonces p.address ≡ pos i
      → suc i < two63
      → (b : TxBody) × (b.nonce ≡ i)
        × (transfer_tx node config t p (next_nonce p.address w.manager).0 ≡ legacy b p.price)
  unfolding transfer_tx next_nonce
  nonce_of_tx t p w i h bound = (_, ap big_uint64 h ∙ big_uint64_small i bound, refl)

  transfer-IsNumbered :
      (body : Signed → Tx) (keys : Keyring) (t : Transfer) (a : Text) (i : ℕ) (w : Wallet Signed)
      → IsHonest body
      → key_at keys.addresses t.from_key_num ≡ ok a
      → nonce_of w.manager.nonces a ≡ pos i
      → suc i < two63
      → IsNumbered body a i (suc i) w (transfer_eth_from_key node config keys t w).0
  unfolding Numbered
  transfer-IsNumbered body keys t a i w honest k h bound =
      let at_end : Wallet Signed → Type 0 = IsNumbered body a i (suc i) w in
      elim (transfer_eth_from_key-IsCounted keys t w) [
        | inl (q, f, u) ↦
            subst at_end (sym q) ([], sym (append-nil w.sent), i, h, omega arith, omega arith)
        | inr (p, prepared, rest) ↦
            let same : p.address ≡ a = ground (arith, k, prepared.2) in
            let own : nonce_of w.manager.nonces p.address ≡ pos i =
              ap (nonce_of w.manager.nonces) same ∙ h in
            let after : nonce_of (counted node config p.address w).manager.nonces a ≡ pos (suc i) =
              ap (nonce_of (counted node config p.address w).manager.nonces) (sym same)
              ∙ next_nonce_own p.address w.manager i own bound in
            elim rest [
              | inl (q, f, u) ↦
                  subst at_end (sym q)
                    ([], sym (append-nil w.sent), suc i, after, omega arith, omega arith)
              | inr (signed, (key, k', g), sent, q, r) ↦
                  let (b, n, e) = nonce_of_tx t p w i own bound in
                  subst at_end (sym q) (
                    signed ∷ [],
                    refl,
                    suc i,
                    after,
                    omega arith,
                    (
                      b,
                      p.price,
                      honest key p.chain_id
                            (transfer_tx node config t p (next_nonce p.address w.manager).0) signed
                            g
                          ∙ e,
                      omega (arith, n),
                      omega (arith, n),
                    ),
                  )
            ]
      ]

  -- After any transfers of one key, whether they succeed or not, the transactions that the node took in
  -- between have nonces that ascend from the one that the manager had for the key's address, and that
  -- stay below the one that it has afterwards, which has grown by at most the number of transfers. A
  -- signed transaction is the one that was signed, and the nonces fit into an int64.
  pub run_transfers-IsNumbered :
      (body : Signed → Tx) (keys : Keyring) (a : Text) (ts : List Transfer) (i : ℕ)
      (w : Wallet Signed)
      → IsHonest body
      → All (λ t. key_at keys.addresses t.from_key_num ≡ ok a) ts
      → nonce_of w.manager.nonces a ≡ pos i
      → i + length ts < two63
      → IsNumbered body a i (i + length ts) w (run_transfers node config keys ts w)
  unfolding run_transfers Numbered
  run_transfers-IsNumbered body keys a [] i w honest ks h bound =
      ([], sym (append-nil w.sent), i, h, omega arith, omega arith)
  run_transfers-IsNumbered body keys a (t ∷ ts) i w honest (k, ks) h bound =
      let w1 = (transfer_eth_from_key node config keys t w).0 in
      let (new, e, j, g, le, numbered) =
        transfer-IsNumbered body keys t a i w honest k h (omega arith) in
      let (more, e', j', g', le', numbered') =
        run_transfers-IsNumbered body keys a ts j w1 honest ks g (omega (arith, le)) in
      (
        new ++ more,
        e' ∙ ap (λ x. x ++ more) e ∙ append_assoc w.sent new more,
        j',
        g',
        omega (arith, le, le'),
        Numbered-append body i j j' new more numbered numbered',
      )
