-- ===== src/Server/Paired.antt =====
-- The entries of a server, each with its session.
use zem.Base.{ℕ, zero, suc, ◌≡◌, refl, Bool, true, false, List, [], ◌∷◌, ◌++◌, All, if◌then◌else◌}
use zem.Session.State.{TcpSession}
use zem.Server.Acceptor.{Entry, change_at}

-- Each entry has its session, and `P` holds of the two.
abbrev pub Paired : (Entry → TcpSession → Type 0) → List Entry → List TcpSession → Type 0
Paired P [] [] = Unit {0}
Paired P [] (s ∷ ss) = ⊥
Paired P (en ∷ ens) [] = ⊥
Paired P (en ∷ ens) (s ∷ ss) = P en s × Paired P ens ss

-- A conditional on both sides.
pub both_cases :
    {A B : Type 0} (P : A → B → Type 0) (b : Bool) (x y : A) (u v : B)
    → (b ≡ true → P x u)
    → (b ≡ false → P y v)
    → P (if b then x else y) (if b then u else v)
both_cases P true x y u v p q = p refl
both_cases P false x y u v p q = q refl

module _ (P : Entry → TcpSession → Type 0) where
  pub Paired-append :
      (ens : List Entry) (ss : List TcpSession) (en : Entry) (s : TcpSession)
      → Paired P ens ss
      → P en s
      → Paired P (ens ++ en ∷ []) (ss ++ s ∷ [])
  Paired-append [] [] en s v p = (p, tt)
  Paired-append [] (t ∷ ss) en s v p = absurd v
  Paired-append (n ∷ ens) [] en s v p = absurd v
  Paired-append (n ∷ ens) (t ∷ ss) en s v p = (v.0, Paired-append ens ss en s v.1 p)

  pub Paired-change_at :
      (f : Entry → Entry)
      → ((en : Entry) (s : TcpSession) → P en s → P (f en) s)
      → (n : ℕ) (ens : List Entry) (ss : List TcpSession) → Paired P ens ss
      → Paired P (change_at n f ens) ss
  unfolding change_at
  Paired-change_at f keeps n [] ss v = v
  Paired-change_at f keeps n (en ∷ ens) [] v = absurd v
  Paired-change_at f keeps zero (en ∷ ens) (s ∷ ss) v = (keeps en s v.0, v.1)
  Paired-change_at f keeps (suc n) (en ∷ ens) (s ∷ ss) v =
      (v.0, Paired-change_at f keeps n ens ss v.1)

pub Paired-weaken :
    (P Q : Entry → TcpSession → Type 0)
    → ((en : Entry) (s : TcpSession) → P en s → Q en s)
    → (ens : List Entry) (ss : List TcpSession) → Paired P ens ss
    → Paired Q ens ss
Paired-weaken P Q f [] [] v = tt
Paired-weaken P Q f [] (s ∷ ss) v = v
Paired-weaken P Q f (en ∷ ens) [] v = v
Paired-weaken P Q f (en ∷ ens) (s ∷ ss) v = (f en s v.0, Paired-weaken P Q f ens ss v.1)

-- What holds of the entry helps.
pub Paired-All :
    (P Q : Entry → TcpSession → Type 0) (R : Entry → Type 0)
    → ((en : Entry) (s : TcpSession) → R en → P en s → Q en s)
    → (ens : List Entry) (ss : List TcpSession) → All R ens
    → Paired P ens ss
    → Paired Q ens ss
Paired-All P Q R f [] [] a v = tt
Paired-All P Q R f [] (s ∷ ss) a v = v
Paired-All P Q R f (en ∷ ens) [] a v = v
Paired-All P Q R f (en ∷ ens) (s ∷ ss) a v = (f en s a.0 v.0, Paired-All P Q R f ens ss a.1 v.1)
