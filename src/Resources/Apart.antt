-- ===== src/Resources/Apart.antt =====
-- Two parts of what is live: a part that stands on its own uses nothing of the other.
use rdma_tutorial.Prelude.{
  ◌≡◌, refl, ◌⊎◌, Bool, true, false, ◌&&◌, ◌||◌, List, [], ◌∷◌, ◌++◌, ◌==◌, Bool-cases, inl, inr,
  arith,
}
use rdma_tutorial.Resources.Defs.{rank, Key, Entry, is_live, in_use, same, holds}
use rdma_tutorial.Resources.Releases.{IsForeign, is_live-append}
use rdma_tutorial.Resources.Honest.{IsSound}

pub behind-IsSound : (front l : List Entry) → IsSound (front ++ l) → IsSound l
behind-IsSound [] l h = h
behind-IsSound (e ∷ front) l h = behind-IsSound front l h.2

same-is_live : (k j : Key) (l : List Entry) → same k j ≡ true → is_live k l ≡ is_live j l
same-is_live k j [] h = refl
same-is_live k j (e ∷ l) h = ground (arith, same-is_live k j l h)

-- A handle that is live behind is not live in front.
front-is_live :
    (k : Key) (front l : List Entry)
    → IsSound (front ++ l)
    → is_live k l ≡ true
    → is_live k front ≡ false
front-is_live k [] l h live = refl
front-is_live k (e ∷ front) l h live = elim (Bool-cases (same k e.key)) [
  | inl z ↦ ground (arith, is_live-append e.key front l, same-is_live k e.key l z)
  | inr z ↦ rw z (front-is_live k front l h.2 live)
]

-- Each object is built on live ones of `g` alone, or on devices, which librdmacm opens.
abbrev pub stands : List Entry → Key → Bool
stands g p = rank p.0 == 0 || is_live p g

abbrev pub all_stand : List Entry → List Key → Bool
all_stand g [] = true
all_stand g (p ∷ ps) = stands g p && all_stand g ps

abbrev pub IsGrounded : List Entry → List Entry → Type 0
IsGrounded g [] = Unit
IsGrounded g (e ∷ es) = (all_stand g e.parents ≡ true) × IsGrounded g es

not-holds :
    (k : Key) (g : List Entry) (ps : List Key)
    → (rank k.0 == 0) ≡ false
    → is_live k g ≡ false
    → all_stand g ps ≡ true
    → holds k ps ≡ false
not-holds k g [] d h s = refl
not-holds k g (p ∷ ps) d h s = elim (Bool-cases (same k p)) [
  | inl z ↦ ground (arith, same-is_live k p g z)
  | inr z ↦ rw z (not-holds k g ps d h (ground arith))
]

-- Nothing that stands on itself is built on what is not part of it.
not-in_use :
    (k : Key) (g front : List Entry)
    → (rank k.0 == 0) ≡ false
    → is_live k g ≡ false
    → IsGrounded g front
    → in_use k front ≡ false
not-in_use k g [] d h s = refl
not-in_use k g (e ∷ front) d h s =
    ground (arith, not-holds k g e.parents d h s.0, not-in_use k g front d h s.1)

pub front-IsForeign :
    (k : Key) (front l : List Entry)
    → IsSound (front ++ l)
    → IsGrounded front front
    → (rank k.0 == 0) ≡ false
    → is_live k l ≡ true
    → IsForeign front k
front-IsForeign k front l h s d live =
    let p : is_live k front ≡ false = front-is_live k front l h live in
    (p, not-in_use k front front d p s)

all_stand-append :
    (a b : List Entry) (ps : List Key)
    → all_stand a ps ≡ true ⊎ all_stand b ps ≡ true
    → all_stand (a ++ b) ps ≡ true
all_stand-append a b [] h = refl
all_stand-append a b (p ∷ ps) (inl h) =
    ground (arith, is_live-append p a b, all_stand-append a b ps (inl (ground arith)))
all_stand-append a b (p ∷ ps) (inr h) =
    ground (arith, is_live-append p a b, all_stand-append a b ps (inr (ground arith)))

IsGrounded-left : (a b es : List Entry) → IsGrounded a es → IsGrounded (a ++ b) es
IsGrounded-left a b [] h = tt
IsGrounded-left a b (e ∷ es) h =
    (all_stand-append a b e.parents (inl h.0), IsGrounded-left a b es h.1)

IsGrounded-right : (a b es : List Entry) → IsGrounded b es → IsGrounded (a ++ b) es
IsGrounded-right a b [] h = tt
IsGrounded-right a b (e ∷ es) h =
    (all_stand-append a b e.parents (inr h.0), IsGrounded-right a b es h.1)

IsGrounded-both :
    (g xs ys : List Entry) → IsGrounded g xs → IsGrounded g ys → IsGrounded g (xs ++ ys)
IsGrounded-both g [] ys h k = k
IsGrounded-both g (x ∷ xs) ys h k = (h.0, IsGrounded-both g xs ys h.1 k)

pub append-IsGrounded :
    (xs ys : List Entry) → IsGrounded xs xs → IsGrounded ys ys → IsGrounded (xs ++ ys) (xs ++ ys)
append-IsGrounded xs ys h k =
    IsGrounded-both _ xs ys (IsGrounded-left xs ys xs h) (IsGrounded-right xs ys ys k)
