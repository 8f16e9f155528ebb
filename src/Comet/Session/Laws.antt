-- ===== src/Comet/Session/Laws.antt =====
-- Transactions: their numbers, what a new one leads to, and none that times out once a session is
-- destroyed.
use galopush.Prelude.{
  ℕ, ◌+◌, ◌≤◌, ◌<◌, Bytes, true, false, List, [], ◌∷◌, ◌++◌, Option, none, some, map, ◌≡◌, ◌≢◌, ◌⊎◌,
  refl, ap, arith, All, Option-cases, inl, inr,
}
use galopush.Comet.Session.{
  Transaction, Session, Saved, next_tid, save_transaction, get_trans, del_trans, stop_timer,
  destroy, on_timeout, expire, answer, max_uint32,
}

-- Transaction numbers stay in the range from 1 to 2^31 - 2; they rise by one until they start again
-- at 1.
pub next_tid_range :
    (tid : ℕ)
    → (1 ≤ next_tid tid)
      × (next_tid tid < max_uint32)
      × ((next_tid tid ≡ tid + 1) ⊎ ((max_uint32 ≤ tid + 1) × (next_tid tid ≡ 1)))
unfolding next_tid
next_tid_range tid = ground arith

-- The number stands in no transaction of the list.
abbrev pub Unused : ℕ → List Transaction → Type 0
Unused tid = All (λ t. t.tid ≢ tid)

-- No two transactions have the same number.
abbrev pub IsDistinct : List Transaction → Type 0
IsDistinct [] = Unit {0}
IsDistinct (t ∷ rest) = Unused t.tid rest × IsDistinct rest

pub get_trans-Unused : (tid : ℕ) (ts : List Transaction) → Unused tid ts → get_trans tid ts ≡ none
unfolding get_trans
get_trans-Unused tid [] u = refl
get_trans-Unused tid (t ∷ ts) u = ground (arith, get_trans-Unused tid ts u.1)

get_trans-stopped :
    (tid : ℕ) (ts : List Transaction) {t : Transaction}
    → get_trans tid (map stop_timer ts) ≡ some t
    → t.running ≡ false
unfolding get_trans
get_trans-stopped tid [] e = ground arith
get_trans-stopped tid (t ∷ ts) {t = u} e = ground (arith, get_trans-stopped tid ts {t = u})

-- A destroyed session lets no transaction time out.
pub expire-destroy : (p : Session) (tid : ℕ) → expire (destroy p) tid ≡ none
unfolding expire destroy
expire-destroy p tid = elim (Option-cases (get_trans tid (map stop_timer p.trans))) [
  | inl gone ↦ rw (gone, expire)
  | inr (t, at) ↦ rw (at, expire) (rw (get_trans-stopped tid p.trans at))
]

get_trans-append :
    (tid : ℕ) (ts : List Transaction) (t : Transaction)
    → Unused tid ts
    → t.tid ≡ tid
    → get_trans tid (ts ++ (t ∷ [])) ≡ some t
unfolding get_trans
get_trans-append tid [] t u e = ground arith
get_trans-append tid (s ∷ ts) t u e = ground (arith, get_trans-append tid ts t u.1 e)

-- A transaction under an unused number is pending right after it was entered: its timeout hands
-- over exactly what its type and platform call for, with the message that was sent.
pub expire-save_transaction :
    (p : Session) (tid msg_type : ℕ) (msg : Bytes)
    → Unused tid p.trans
    → (r : record { left : Session; saved : Option Saved }) × (expire
          (save_transaction p tid msg_type msg)
          tid
        ≡ some r)
      × (r.saved
          ≡ on_timeout p.plat
              (record { tid = tid; msg_type = msg_type; msg = msg; running = true }))
unfolding expire save_transaction
expire-save_transaction p tid msg_type msg u =
    let t : Transaction = record { tid = tid; msg_type = msg_type; msg = msg; running = true } in
    (
      record {
        left = record p { trans = del_trans tid (p.trans ++ (t ∷ [])) };
        saved = on_timeout p.plat t;
      },
      rw (get_trans-append tid p.trans t u refl, expire),
      refl,
    )

del_trans-append :
    (tid : ℕ) (ts : List Transaction) (t : Transaction)
    → Unused tid ts
    → t.tid ≡ tid
    → del_trans tid (ts ++ (t ∷ [])) ≡ ts
unfolding del_trans
del_trans-append tid [] t u e = ground arith
del_trans-append tid (s ∷ ts) t u e =
    let rest = del_trans-append tid ts t u.1 e in ground (arith, u.0, rest)

-- The answer to a transaction that was entered under an unused number leaves the session as it was
-- before.
pub answer-save_transaction :
    (p : Session) (tid msg_type : ℕ) (msg : Bytes)
    → Unused tid p.trans
    → answer (save_transaction p tid msg_type msg) tid ≡ p
unfolding answer save_transaction
answer-save_transaction p tid msg_type msg u =
    let t : Transaction = record { tid = tid; msg_type = msg_type; msg = msg; running = true } in
    rw (get_trans-append tid p.trans t u refl, answer)
      (ap (λ ts. record p { trans = ts }) (del_trans-append tid p.trans t u refl))
