-- ===== src/WebSocket/Target.antt =====
-- Which targets of `src/websocket/websocket_handler.rs` fit a request, and the first of them.
use shoes_on_shuttle.Common.{
  both, Bool, true, Option, none, some, List, Bytes, [], ◌∷◌, ◌++◌, ◌∙◌, sym, ap, refl, ◌≡◌, ◌&&◌,
  if◌then◌else◌, inl, inr, Bool-cases, Option-cases, All, bytes_eq, bytes_eq→eq, bytes_eq_refl,
}
use mathlib.Core.Path.{subst}
use shoes_on_shuttle.Common.Text.{bytes_of}
use shoes_on_shuttle.WebSocket.Entries.{IsEntry, get-IsEntry, IsEntry-get, get-remove, get-removed}
use shoes_on_shuttle.WebSocket.Handshake.{
  Headers, WebsocketServerTarget, get, remove, has_value, has_headers, path_fits, headers_fit, fits,
  find_target,
}

abbrev pub key_name : Bytes
key_name = bytes_of "sec-websocket-key"

-- The path that the target wants, if any, is that of the request, and each header it wants, if any,
-- stands in the request; none is the key, which is taken out before.
abbrev pub PathFits : Option Bytes → Bytes → Type 0
PathFits none path = Unit
PathFits (some wanted) path = wanted ≡ path

abbrev pub HasAll : Headers → Headers → Type 0
HasAll wanted headers =
    All (λ (h : Bytes × Bytes). IsEntry h.0 h.1 headers × ¬ (h.0 ≡ key_name)) wanted

abbrev pub HeadersFit : Option Headers → Headers → Type 0
HeadersFit none headers = Unit
HeadersFit (some wanted) headers = HasAll wanted headers

abbrev pub Fits : Bytes → Headers → WebsocketServerTarget → Type 0
Fits path headers target =
    PathFits target.matching_path path × HeadersFit target.matching_headers headers

-- `target` is the first one that fits.
pub record First (path : Bytes) (headers : Headers) (targets : List WebsocketServerTarget)
    (target : WebsocketServerTarget) : Type 0 where
  pub before : List WebsocketServerTarget
  pub after : List WebsocketServerTarget
  pub there : targets ≡ before ++ (target ∷ after)
  pub it_fits : Fits path headers target
  pub none_before : All (λ (t : WebsocketServerTarget). ¬ Fits path headers t) before

has_value-IsEntry :
    (name value : Bytes) (headers : Headers)
    → has_value (get name (remove key_name headers)) value ≡ true
    → IsEntry name value headers × ¬ (name ≡ key_name)
has_value-IsEntry name value headers e =
    let left = remove key_name headers in
    let Has : Option Bytes → Type 0 = λ o. has_value o value ≡ true in
    let not_key : ¬ (name ≡ key_name) = λ same.
      let none_there : get name left ≡ none =
        ap (λ (n : Bytes). get n left) same ∙ get-removed key_name headers in
      cc (subst Has none_there e) in
    elim (Option-cases (get name left)) [
      | inl nothing ↦ absurd (cc (subst Has nothing e))
      | inr (v, found) ↦
          let same : v ≡ value = bytes_eq→eq v value (subst Has found e) in
          (
            get-IsEntry name value headers
                (sym (get-remove name key_name headers not_key) ∙ found ∙ ap some same),
            not_key,
          )
    ]

IsEntry-has_value :
    (name value : Bytes) (headers : Headers)
    → IsEntry name value headers × ¬ (name ≡ key_name)
    → has_value (get name (remove key_name headers)) value ≡ true
IsEntry-has_value name value headers (entry, not_key) =
    ap (λ (o : Option Bytes). has_value o value)
      (get-remove name key_name headers not_key ∙ IsEntry-get name value headers entry)
    ∙ bytes_eq_refl value

has_headers-HasAll :
    (wanted headers : Headers)
    → has_headers wanted (remove key_name headers) ≡ true
    → HasAll wanted headers
has_headers-HasAll [] headers e = tt
has_headers-HasAll ((k, v) ∷ wanted) headers e =
    let left = remove key_name headers in
    let (here, later) = both (has_value (get k left) v) (has_headers wanted left) e in
    (has_value-IsEntry k v headers here, has_headers-HasAll wanted headers later)

HasAll-has_headers :
    (wanted headers : Headers)
    → HasAll wanted headers
    → has_headers wanted (remove key_name headers) ≡ true
HasAll-has_headers [] headers h = refl
HasAll-has_headers ((k, v) ∷ wanted) headers (here, later) =
    let left = remove key_name headers in
    ap (λ (b : Bool). b && has_headers wanted left) (IsEntry-has_value k v headers here)
    ∙ HasAll-has_headers wanted headers later

path_fits-PathFits :
    (wanted : Option Bytes) (path : Bytes) → path_fits wanted path ≡ true → PathFits wanted path
path_fits-PathFits none path e = tt
path_fits-PathFits (some wanted) path e = bytes_eq→eq wanted path e

PathFits-path_fits :
    (wanted : Option Bytes) (path : Bytes) → PathFits wanted path → path_fits wanted path ≡ true
PathFits-path_fits none path h = refl
PathFits-path_fits (some wanted) path h = ap (bytes_eq wanted) (sym h) ∙ bytes_eq_refl wanted

headers_fit-HeadersFit :
    (wanted : Option Headers) (headers : Headers)
    → headers_fit wanted (remove key_name headers) ≡ true
    → HeadersFit wanted headers
headers_fit-HeadersFit none headers e = tt
headers_fit-HeadersFit (some wanted) headers e = has_headers-HasAll wanted headers e

HeadersFit-headers_fit :
    (wanted : Option Headers) (headers : Headers)
    → HeadersFit wanted headers
    → headers_fit wanted (remove key_name headers) ≡ true
HeadersFit-headers_fit none headers h = refl
HeadersFit-headers_fit (some wanted) headers h = HasAll-has_headers wanted headers h

module _ (path : Bytes) (headers : Headers) where
  fits-Fits :
      (t : WebsocketServerTarget)
      → fits path (remove key_name headers) t ≡ true
      → Fits path headers t
  fits-Fits t e =
      let (on_path, on_headers) =
        both (path_fits t.matching_path path)
          (headers_fit t.matching_headers (remove key_name headers)) e in
      (
        path_fits-PathFits t.matching_path path on_path,
        headers_fit-HeadersFit t.matching_headers headers on_headers,
      )

  Fits-fits :
      (t : WebsocketServerTarget)
      → Fits path headers t
      → fits path (remove key_name headers) t ≡ true
  Fits-fits t (on_path, on_headers) =
      ap (λ (b : Bool). b && headers_fit t.matching_headers (remove key_name headers))
        (PathFits-path_fits t.matching_path path on_path)
      ∙ HeadersFit-headers_fit t.matching_headers headers on_headers

  pub find_target-First :
      (targets : List WebsocketServerTarget) (target : WebsocketServerTarget)
      → find_target path (remove key_name headers) targets ≡ some target
      → First path headers targets target
  unfolding find_target
  find_target-First [] target e = cc
  find_target-First (t ∷ ts) target e =
      let left = remove key_name headers in
      let Found : Bool → Type 0 =
        λ b. (if b then some t else find_target path left ts) ≡ some target in
      elim (Bool-cases (fits path left t)) [
        | inl here ↦
            let found : some t ≡ some target = subst Found here e in
            let same : t ≡ target = cc in
            subst (First path headers (t ∷ ts)) same (record {
              before = [];
              after = ts;
              there = refl;
              it_fits = fits-Fits t here;
              none_before = tt;
            })
        | inr not_here ↦
            let f = find_target-First ts target (subst Found not_here e) in
            record {
              before = t ∷ f.before;
              after = f.after;
              there = ap (◌∷◌ t) f.there;
              it_fits = f.it_fits;
              none_before = (λ it_fits. cc (sym not_here ∙ Fits-fits t it_fits), f.none_before);
            }
      ]
