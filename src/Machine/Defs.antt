-- ===== src/Machine/Defs.antt =====
-- The monad of programs, and how a program calls a library, dies and waits.
use Prim.Native.String.{String}
use rdma_tutorial.Prelude.{
  ℕ, Bool, Option, none, some, List, [], ◌∷◌, ◌==◌, ltb, length, if◌then◌else◌,
}
use rdma_tutorial.External.{is_zero, Call, Reply, no_reply, Trace}

-- What `die` prints: a text, or the text of an expression in IF_NULL_DIE or IF_NZERO_DIE.
pub data Reason : Type 0 where
  reason : String → Reason
  is_null : String → Reason
  not_zero : String → Reason

-- `died` is `exit` with a status of failure. `waiting`: the script has no reply for the next call,
-- which is where a run stands while a library has not answered. `fault`: the C program has no
-- defined meaning from here on, after a NULL dereference or a write past a buffer. `out_of_fuel`: a
-- loop of the model used up its bound on rounds.
pub data Outcome (A : Type 0) : Type 0 where
  ok : A → Outcome A
  died : Reason → Outcome A
  waiting : Outcome A
  fault : Outcome A
  out_of_fuel : Outcome A

abbrev pub World : Type 0
World = List Reply × Trace

abbrev pub Prog : Type 0 → Type 0
Prog A = World → Outcome A × World

abbrev pub pure : {A : Type 0} → A → Prog A
pure a w = (ok a, w)

abbrev pub and_then : {A B : Type 0} → Outcome A × World → (A → Prog B) → Outcome B × World
and_then (ok a, w) f = f a w
and_then (died r, w) f = (died r, w)
and_then (waiting, w) f = (waiting, w)
and_then (fault, w) f = (fault, w)
and_then (out_of_fuel, w) f = (out_of_fuel, w)

infixl 5 ◌>>=◌ ◌>>◌
abbrev pub ◌>>=◌ : {A B : Type 0} → Prog A → (A → Prog B) → Prog B
◌>>=◌ m f w = and_then (m w) f

abbrev pub ◌>>◌ : {A B : Type 0} → Prog A → Prog B → Prog B
m >> k = m >>= λ _. k

-- A call that returns something.
unfoldable pub call : Call → Prog Reply
call c ([], t) = (waiting, ([], t))
call c (r ∷ rs, t) = (ok r, (rs, (c, r) ∷ t))

-- A call of a `void` function.
unfoldable pub tell : Call → Prog (Unit {0})
tell c (rs, t) = (ok tt, (rs, (c, no_reply) ∷ t))

abbrev pub die : {A : Type 0} → Reason → Prog A
die r w = (died r, w)

abbrev pub give_up : {A : Type 0} → Prog A
give_up w = (out_of_fuel, w)

unfoldable pub die_if : Bool → Reason → Prog (Unit {0})
die_if b r w = if b then (died r, w) else (ok tt, w)

-- `if (!(p = f())) die(...)`: the pointer, if it is not NULL
unfoldable pub nonnull : Reason → Call → Prog ℕ
nonnull e c = do r ← call c; die_if (r.ptr == 0) e; pure r.ptr

-- `if (f()) die(...)`
unfoldable pub zero_or_die : Reason → Call → Prog Reply
zero_or_die e c = do r ← call c; if is_zero r.code then pure r else die e

-- the macros IF_NULL_DIE and IF_NZERO_DIE
abbrev pub if_null_die : String → Call → Prog ℕ
if_null_die e c = nonnull (is_null e) c

abbrev pub if_nzero_die : String → Call → Prog Reply
if_nzero_die e c = zero_or_die (not_zero e) c

-- A pointer that must lead to something: `none` where it does not.
unfoldable pub or_fault : {A : Type 0} → Option A → Prog A
or_fault none w = (fault, w)
or_fault (some a) w = (ok a, w)

-- The call of a function whose int result the program ignores.
unfoldable pub ignore : Call → Prog (Unit {0})
ignore c ([], t) = (waiting, ([], t))
ignore c (r ∷ rs, t) = (ok tt, (rs, (c, r) ∷ t))

-- `if (p) f(p);`, for an `f` that returns an int and for a `void` one
unfoldable pub ignore_if : ℕ → (ℕ → Call) → Prog (Unit {0})
ignore_if p c = if p == 0 then pure tt else ignore (c p)

unfoldable pub tell_if : ℕ → (ℕ → Call) → Prog (Unit {0})
tell_if p c = if p == 0 then pure tt else tell (c p)

-- an access that has no meaning in C if `b` holds
unfoldable pub fault_if : Bool → Prog (Unit {0})
fault_if b w = if b then (fault, w) else (ok tt, w)

-- `do { ret = f(); } while (ret == 0);`: every round takes a reply, so no fuel is needed.
unfoldable pub poll : Call → Prog Reply
poll c ([], t) = (waiting, ([], t))
poll c (r ∷ rs, t) =
    let again = poll c (rs, (c, r) ∷ t) in
    if is_zero r.code then again else (ok r, (rs, (c, r) ∷ t))

-- `strcpy` into a buffer of `size` bytes of a C string, given without its NUL
unfoldable pub strcpy : ℕ → List ℕ → Prog (List ℕ)
strcpy size s w = if ltb (length s) size then (ok s, w) else (fault, w)
