-- ===== src/WebSocket/Entries.antt =====
-- The headers of a request as a map, which the last line with a name decides.
use shoes_on_shuttle.Common.{
  Bool, true, false, Option, none, some, Bytes, [], ◌∷◌, ◌++◌, ◌∙◌, sym, ap, refl, ◌≡◌,
  if◌then◌else◌, inl, inr, Bool-cases, All, bytes_eq, bytes_eq→eq, bytes_eq_refl,
}
use mathlib.Core.Path.{subst}
use shoes_on_shuttle.WebSocket.Handshake.{Headers, get, remove}

-- The newest entry with the name has the value.
pub record IsEntry (name value : Bytes) (headers : Headers) : Type 0 where
  pub newer : Headers
  pub older : Headers
  pub there : headers ≡ newer ++ ((name, value) ∷ older)
  pub none_newer : All (λ (h : Bytes × Bytes). ¬ (h.0 ≡ name)) newer

same_name : (xs ys : Bytes) → xs ≡ ys → bytes_eq xs ys ≡ true
same_name xs ys e = ap (bytes_eq xs) (sym e) ∙ bytes_eq_refl xs

pub other_name : (xs ys : Bytes) → ¬ (xs ≡ ys) → bytes_eq xs ys ≡ false
other_name xs ys other = elim (Bool-cases (bytes_eq xs ys)) [
  | inl same ↦ absurd (other (bytes_eq→eq xs ys same))
  | inr differ ↦ differ
]

differ_name : (xs ys : Bytes) → bytes_eq xs ys ≡ false → ¬ (xs ≡ ys)
differ_name xs ys differ e = cc (sym differ ∙ same_name xs ys e)

pub get-IsEntry :
    (name value : Bytes) (headers : Headers)
    → get name headers ≡ some value
    → IsEntry name value headers
get-IsEntry name value [] e = cc
get-IsEntry name value ((k, v) ∷ headers) e =
    let Goal : Bool → Type 0 = λ b. (if b then some v else get name headers) ≡ some value in
    elim (Bool-cases (bytes_eq k name)) [
      | inl here ↦
          let found : some v ≡ some value = subst Goal here e in
          let value_is : v ≡ value = cc in
          let key_is = bytes_eq→eq k name here in
          record {
            newer = [];
            older = headers;
            there =
                ap (λ (x : Bytes). (x, v) ∷ headers) key_is
                ∙ ap (λ (x : Bytes). (name, x) ∷ headers) value_is;
            none_newer = tt;
          }
      | inr later ↦
          let entry = get-IsEntry name value headers (subst Goal later e) in
          record {
            newer = (k, v) ∷ entry.newer;
            older = entry.older;
            there = ap (◌∷◌ (k, v)) entry.there;
            none_newer = (differ_name k name later, entry.none_newer);
          }
    ]

get-newest :
    (name value : Bytes) (newer older : Headers)
    → All (λ (h : Bytes × Bytes). ¬ (h.0 ≡ name)) newer
    → get name (newer ++ ((name, value) ∷ older)) ≡ some value
get-newest name value [] older h =
    ap (λ (b : Bool). if b then some value else get name older) (bytes_eq_refl name)
get-newest name value ((k, v) ∷ newer) older (other, h) =
    ap (λ (b : Bool). if b then some v else get name (newer ++ ((name, value) ∷ older)))
      (other_name k name other)
    ∙ get-newest name value newer older h

pub IsEntry-get :
    (name value : Bytes) (headers : Headers)
    → IsEntry name value headers
    → get name headers ≡ some value
IsEntry-get name value headers entry =
    ap (get name) entry.there ∙ get-newest name value entry.newer entry.older entry.none_newer

-- `remove` takes away nothing but the name.
pub get-remove :
    (name key : Bytes) (headers : Headers)
    → ¬ (name ≡ key)
    → get name (remove key headers) ≡ get name headers
get-remove name key [] other = refl
get-remove name key ((k, v) ∷ headers) other =
    let rest = remove key headers in
    let same = get-remove name key headers other in
    elim (Bool-cases (bytes_eq k key)) [
      | inl removed ↦
          ap (λ (b : Bool). get name (if b then rest else (k, v) ∷ rest)) removed
          ∙ same
          ∙ sym (
              ap (λ (b : Bool). if b then some v else get name headers)
                (other_name k name (λ e. other (sym e ∙ bytes_eq→eq k key removed))))
      | inr kept ↦
          ap (λ (b : Bool). get name (if b then rest else (k, v) ∷ rest)) kept
          ∙ ap (λ (o : Option Bytes). if bytes_eq k name then some v else o) same
    ]

pub get-removed : (key : Bytes) (headers : Headers) → get key (remove key headers) ≡ none
get-removed key [] = refl
get-removed key ((k, v) ∷ headers) =
    let rest = remove key headers in
    elim (Bool-cases (bytes_eq k key)) [
      | inl removed ↦
          ap (λ (b : Bool). get key (if b then rest else (k, v) ∷ rest)) removed
          ∙ get-removed key headers
      | inr kept ↦
          ap (λ (b : Bool). get key (if b then rest else (k, v) ∷ rest)) kept
          ∙ ap (λ (b : Bool). if b then some v else get key rest) kept
          ∙ get-removed key headers
    ]
