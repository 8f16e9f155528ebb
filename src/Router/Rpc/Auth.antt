-- ===== src/Router/Rpc/Auth.antt =====
-- When the router lets a terminal in (AuthRequest of router/procRpc.go).
use galopush.Prelude.{
  ℕ, zero, suc, Bool, true, ◌&&◌, ◌==◌, ◌=ₛ◌, List, [], ◌∷◌, some, get_elem?, ◌≡◌, ◌↔◌, refl, arith,
  Bool-cases, Option-cases, inl, inr, same_iff,
}
use galopush.Rds.Defs.{Session, Redis}
use galopush.Rds.Store.{Storager, find_sessions}
use galopush.Rds.Messages.{terminals}
use galopush.Router.Rpc.{Router, Code, AuthRequest, auth_terminals, auth, code_of}

-- A terminal of a list that has the platform and the code of a request, and is logged in.
pub record Admits (msg : AuthRequest) (items : List Session) (is : List ℕ) : Type 0 where
  pub at : ℕ
  pub pointer : ℕ
  pub it : Session
  pub listed : get_elem? is at ≡ some pointer
  pub found : get_elem? items pointer ≡ some it
  pub same_plat : it.plat ≡ msg.plat
  pub same_code : it.auth_code ≡ msg.code
  pub logged_in : it.login ≡ true

auth_terminals_hit :
    (msg : AuthRequest) (items : List Session) (is : List ℕ) (k i : ℕ) (it : Session)
    → get_elem? is k ≡ some i
    → get_elem? items i ≡ some it
    → it.plat ≡ msg.plat
    → it.auth_code ≡ msg.code
    → it.login ≡ true
    → auth_terminals msg items is ≡ true
unfolding auth_terminals
auth_terminals_hit msg items [] k i it at found plat code login = ground arith
auth_terminals_hit msg items (j ∷ js) zero i it at found plat code login =
    ground (arith, same_iff it.auth_code msg.code)
auth_terminals_hit msg items (j ∷ js) (suc k) i it at found plat code login =
    let rest = auth_terminals_hit msg items js k i it at found plat code login in
    ground (arith, rest)

Admits-later :
    (msg : AuthRequest) (items : List Session) (i : ℕ) (is : List ℕ)
    → Admits msg items is
    → Admits msg items (i ∷ is)
Admits-later msg items i is a = record {
  at = suc a.at;
  pointer = a.pointer;
  it = a.it;
  listed = a.listed;
  found = a.found;
  same_plat = a.same_plat;
  same_code = a.same_code;
  logged_in = a.logged_in;
}

auth_terminals-Admits :
    (msg : AuthRequest) (items : List Session) (is : List ℕ)
    → auth_terminals msg items is ≡ true
    → Admits msg items is
unfolding auth_terminals
auth_terminals-Admits msg items [] h = ground arith
auth_terminals-Admits msg items (i ∷ is) h = elim (Option-cases (get_elem? items i)) [
  | inl gone ↦
      Admits-later msg items i is (auth_terminals-Admits msg items is (ground (arith, h, gone)))
  | inr (it, at) ↦
      elim (Bool-cases (it.plat == msg.plat && (it.auth_code =ₛ msg.code && it.login))) [
        | inl good ↦ record {
          at = 0;
          pointer = i;
          it = it;
          listed = refl;
          found = at;
          same_plat = ground (arith, good);
          same_code = ground (arith, good, same_iff it.auth_code msg.code);
          logged_in = ground (arith, good);
        }
        | inr bad ↦
            Admits-later msg items i is
              (auth_terminals-Admits msg items is (ground (arith, h, at, bad)))
      ]
]

module _ {R : Type 0} (redis : Redis R) where
  -- For a user that FindSessions finds: the router lets a terminal in exactly when one of the user's
  -- terminals has its platform and its code and is logged in.
  pub auth_iff :
      (msg : AuthRequest) (r : Router R) (p : ℕ) (st : Storager R)
      → find_sessions redis r.store msg.id ≡ (some p, st)
      → ((auth redis msg r).0 ≡ Code.rpc_ret_success) ↔ Admits msg st.items (terminals st p)
  unfolding auth
  auth_iff msg r p st found = (
    (λ h. auth_terminals-Admits msg st.items (terminals st p) (code_of_success _ (rw found at h))),
    (λ a. rw found (
        rw
          (auth_terminals_hit msg st.items (terminals st p) a.at a.pointer a.it a.listed a.found
            a.same_plat a.same_code a.logged_in)
          refl)),
  )
    where
      code_of_success : (b : Bool) → code_of b ≡ Code.rpc_ret_success → b ≡ true
      code_of_success b h = ground (arith, h)
