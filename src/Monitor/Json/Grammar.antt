-- ===== src/Monitor/Json/Grammar.antt =====
-- JSON values and their tokens, and what of the formatter's output is not white space.
use acq400_xrm.Prelude.{◌≡◌, refl, ap, ◌∙◌, List, [], ◌∷◌, ◌++◌, map}
use acq400_xrm.Prelude.Text.{Text}
use acq400_xrm.Monitor.Json.{
  Token, tabs, blanks, newline, open_brace, close_brace, open_bracket, close_bracket, comma, colon,
  quoted, hex, signed, Line, items,
}

mutual
  pub data Json : Type 0 where
    leaf : Token → Json
    array : Items → Json
    object : Members → Json

  pub data Items : Type 0 where
    nil : Items
    cons : Json → Items → Items

  pub data Members : Type 0 where
    no_member : Members
    member : Text → Json → Members → Members

-- The tokens of a value, in front of what follows it.
unfoldable mutual
  pub json : Json → List Token → List Token
  json (leaf v) rest = v ∷ rest
  json (array xs) rest = open_bracket ∷ json_items xs (close_bracket ∷ rest)
  json (object ms) rest = open_brace ∷ json_members ms (close_brace ∷ rest)

  pub json_items : Items → List Token → List Token
  json_items nil rest = rest
  json_items (cons x nil) rest = json x rest
  json_items (cons x (cons y ys)) rest = json x (comma ∷ json_items (cons y ys) rest)

  pub json_members : Members → List Token → List Token
  json_members no_member rest = rest
  json_members (member name v no_member) rest = quoted name ∷ colon ∷ json v rest
  json_members (member name v (member name' v' ms)) rest =
      quoted name ∷ colon ∷ json v (comma ∷ json_members (member name' v' ms) rest)

-- The tokens that are no white space, in front of others.
unfoldable pub significant : List Token → List Token → List Token
significant [] rest = rest
significant (tabs n ∷ ts) rest = significant ts rest
significant (blanks n ∷ ts) rest = significant ts rest
significant (newline ∷ ts) rest = significant ts rest
significant (t ∷ ts) rest = t ∷ significant ts rest

-- Those of lines, whatever their indentation.
unfoldable pub solid : List Line → List Token → List Token
solid [] rest = rest
solid (l ∷ ls) rest = significant l.tokens (solid ls rest)

pub solid_none : (rest : List Token) → solid [] rest ≡ rest
unfolding solid
solid_none rest = refl

pub significant-append :
    (ts us rest : List Token) → significant (ts ++ us) rest ≡ significant ts (significant us rest)
unfolding significant
significant-append [] us rest = refl
significant-append (tabs n ∷ ts) us rest = significant-append ts us rest
significant-append (blanks n ∷ ts) us rest = significant-append ts us rest
significant-append (newline ∷ ts) us rest = significant-append ts us rest
significant-append (t ∷ ts) us rest = ap (λ r. t ∷ r) (significant-append ts us rest)

pub solid-append :
    (ls ms : List Line) (rest : List Token) → solid (ls ++ ms) rest ≡ solid ls (solid ms rest)
unfolding solid
solid-append [] ms rest = refl
solid-append (l ∷ ls) ms rest = ap (significant l.tokens) (solid-append ls ms rest)

abbrev pub leaves : List Token → Items
leaves [] = nil
leaves (v ∷ vs) = cons (leaf v) (leaves vs)

abbrev IsSolid : {A : Type 0} → (A → Token) → Type 0
IsSolid {A = A} f =
    (x : A) (ts rest : List Token) → significant (f x ∷ ts) rest ≡ f x ∷ significant ts rest

-- The values that items() separates are those of an array.
pub significant-items :
    {A : Type 0} (f : A → Token) (xs : List A) (ts rest : List Token)
    → IsSolid f
    → significant (items (map f xs) ++ ts) rest
      ≡ json_items (leaves (map f xs)) (significant ts rest)
unfolding items json significant
significant-items f [] ts rest s = refl
significant-items f (x ∷ []) ts rest s = s x (blanks 1 ∷ ts) rest
significant-items f (x ∷ y ∷ ys) ts rest s =
    s x _ rest ∙ ap (λ r. f x ∷ comma ∷ r) (significant-items f (y ∷ ys) ts rest s)

pub signed-IsSolid : IsSolid signed
unfolding significant
signed-IsSolid z ts rest = refl

pub hex-IsSolid : IsSolid hex
unfolding significant
hex-IsSolid n ts rest = refl
