-- ===== src/Resources/Releases.antt =====
-- Releasing one object after another, in a part of the live objects that nothing else touches.
use rdma_tutorial.Prelude.{
  ◌≡◌, refl, false, ◌||◌, Option, none, some, List, [], ◌∷◌, ◌++◌, All, arith,
}
use rdma_tutorial.Resources.Defs.{Key, Entry, is_live, in_use, remove, release}

abbrev pub release? : Key → Option (List Entry) → Option (List Entry)
release? k none = none
release? k (some l) = release k l

abbrev pub releases : List Key → Option (List Entry) → Option (List Entry)
releases [] o = o
releases (k ∷ ks) o = releases ks (release? k o)

-- Neither live nor in use among the objects of a list.
abbrev pub IsForeign : List Entry → Key → Type 0
IsForeign l k = (is_live k l ≡ false) × (in_use k l ≡ false)

pub in_use-append :
    (k : Key) (xs ys : List Entry) → in_use k (xs ++ ys) ≡ (in_use k xs || in_use k ys)
in_use-append k [] ys = refl
in_use-append k (x ∷ xs) ys = ground (arith, in_use-append k xs ys)

pub is_live-append :
    (k : Key) (xs ys : List Entry) → is_live k (xs ++ ys) ≡ (is_live k xs || is_live k ys)
is_live-append k [] ys = refl
is_live-append k (x ∷ xs) ys = ground (arith, is_live-append k xs ys)

remove-append :
    (k : Key) (xs ys : List Entry) → is_live k xs ≡ false → remove k (xs ++ ys) ≡ xs ++ remove k ys
remove-append k [] ys h = refl
remove-append k (x ∷ xs) ys h = ground (arith, remove-append k xs ys)

abbrev pub behind : List Entry → Option (List Entry) → Option (List Entry)
behind front none = none
behind front (some l) = some (front ++ l)

release-append :
    (k : Key) (front l : List Entry)
    → IsForeign front k
    → release k (front ++ l) ≡ behind front (release k l)
release-append k front l h =
    ground (arith, in_use-append k front l, is_live-append k front l, remove-append k front l)

pub releases-append :
    (ks : List Key) (front : List Entry) (o : Option (List Entry))
    → All (IsForeign front) ks
    → releases ks (behind front o) ≡ behind front (releases ks o)
releases-append [] front o h = refl
releases-append (k ∷ ks) front none h = releases-append ks front none h.1
releases-append (k ∷ ks) front (some l) h =
    rw (release-append k front l h.0) (releases-append ks front (release k l) h.1)

pub releases-none : (ks : List Key) → releases ks none ≡ none
releases-none [] = refl
releases-none (k ∷ ks) = releases-none ks
