-- ===== src/Config/Trees.antt =====
-- The last child of a list of children, and trees in which every statement has a word.
use caviar_hacker_grid.Base.{List, [], ◌∷◌, ◌++◌, some, ◌≡◌, refl, ap, ◌≢◌}
use caviar_hacker_grid.Base.Text.{Bytes}
use caviar_hacker_grid.Config.{Config, node, Configs, nil, cons, snoc, concat}
use caviar_hacker_grid.Config.Parser.{push_back, split_back}

-- Every node of the forest has a token.
pub data AreNamed : Configs → Type 0 where
  none_left : AreNamed nil
  named :
      {t : Bytes} {ts : List Bytes} {ds cs : Configs}
      → AreNamed ds
      → AreNamed cs
      → AreNamed (cons (node (t ∷ ts) ds) cs)

pub AreNamed-snoc :
    {cs ds : Configs} (ts : List Bytes)
    → ts ≢ []
    → AreNamed cs
    → AreNamed ds
    → AreNamed (snoc cs (node ts ds))
AreNamed-snoc [] ne a d = absurd (ne refl)
AreNamed-snoc (t ∷ ts) ne none_left d = named d none_left
AreNamed-snoc (t ∷ ts) ne (named {t = u} a b) d = named a (AreNamed-snoc (t ∷ ts) ne b d)

-- The last child, taken out.
pub data HasBack (cs : Configs) : Type 0 where
  has_back : (front : Configs) (back : Config) → cs ≡ snoc front back → HasBack cs

pub HasBack-cons : (c : Config) (cs : Configs) → HasBack (cons c cs)
HasBack-cons c nil = has_back nil c refl
HasBack-cons c (cons d cs) = go (HasBack-cons d cs)
  where
    go : HasBack (cons d cs) → HasBack (cons c (cons d cs))
    go (has_back front back e) = has_back (cons c front) back (ap (cons c) e)

pub push_back-snoc :
    (cs : Configs) (ts : List Bytes) (ds : Configs) (t : Bytes)
    → push_back (snoc cs (node ts ds)) t ≡ some (snoc cs (node (ts ++ t ∷ []) ds))
push_back-snoc nil ts ds t = refl
push_back-snoc (cons c nil) ts ds t = refl
push_back-snoc (cons c (cons d cs)) ts ds t = rw (push_back-snoc (cons d cs) ts ds t)

pub split_back-snoc : (cs : Configs) (d : Config) → split_back (snoc cs d) ≡ some (cs, d)
split_back-snoc nil d = refl
split_back-snoc (cons c nil) d = refl
split_back-snoc (cons c (cons e cs)) d = rw (split_back-snoc (cons e cs) d)

pub concat-snoc :
    (cs : Configs) (d : Config) (ds : Configs) → concat (snoc cs d) ds ≡ concat cs (cons d ds)
concat-snoc nil d ds = refl
concat-snoc (cons c cs) d ds = ap (cons c) (concat-snoc cs d ds)

pub concat-nil : (cs : Configs) → concat cs nil ≡ cs
concat-nil nil = refl
concat-nil (cons c cs) = ap (cons c) (concat-nil cs)

-- What a named forest says of its last child, and of those before it.
pub AreNamed-snoc_back :
    (cs : Configs) (us : List Bytes) (ds : Configs)
    → AreNamed (snoc cs (node us ds))
    → (us ≢ []) × AreNamed ds × AreNamed cs
AreNamed-snoc_back nil (t ∷ us) ds (named a b) = (λ h. cc, a, none_left)
AreNamed-snoc_back nil [] ds h = elim h [ ]
AreNamed-snoc_back (cons (node [] es) cs) us ds h = elim h [ ]
AreNamed-snoc_back (cons (node (t ∷ ts) es) cs) us ds (named a b) =
    let (ne, d, front) = AreNamed-snoc_back cs us ds b in (ne, d, named a front)
