-- ===== src/Targets/Specific.antt =====
-- What a device may ask about names one thing: it is no pattern.
use ajar_family.Prelude.{
  ℕ, ◌+◌, ◌≡◌, ◌≢◌, ◌≤◌, ◌⊎◌, refl, inl, inr, [], ◌∷◌, Bool, true, false, Option, none, some, Memᴰ,
  Bool-cases, and-eq-true_iff, ◌&&◌, ◌||◌, length, leb, leb→le, arith, ◌==◌, ==_iff, ◌∙◌, not,
}
use ajar_family.Text.{Text, codes, same, nonempty, starts_with, all_chars, some_char, is_space}
use ajar_family.Text.Laws.{same→eq}
use ajar_family.Web.{UrlApi}
use ajar_family.YouTube.{is_id_char, video_id_re, channel_id_re, playlist_prefix, playlist_id_re}
use ajar_family.Policy.Model.{TargetType}
use ajar_family.Targets.{
  is_name_char, is_name, after, prefixed_name, channel_name_re, bounded_playlist_re, app_id_re,
  is_forbidden, is_plausible_host, is_http_url, has_shape, child_request_target_error,
}
use ajar_family.Targets.Shapes.{request_target_iff, plausible}

-- Neither an asterisk nor a space.
abbrev pub HasNoWildcard : Text → Type 0
HasNoWildcard value = (c : ℕ) → Memᴰ c value → (c ≢ b'*') × (c ≢ b' ')

-- One page of the web, or a short name without wildcards.
pub data IsSpecific (web : UrlApi) (value : Text) : TargetType → Type 0 where
  page :
      {u : web.Url}
      → length value ≤ 2048
      → web.parse value ≡ some u
      → (web.protocol u ≡ codes "http:") ⊎ (web.protocol u ≡ codes "https:")
      → web.hostname u ≢ []
      → IsSpecific web value TargetType.url
  name :
      {type : TargetType}
      → type ≢ TargetType.url
      → type ≢ TargetType.url_pattern
      → type ≢ TargetType.category
      → length value ≤ 253
      → HasNoWildcard value
      → IsSpecific web value type

all_chars-Mem : (p : ℕ → Bool) (s : Text) {c : ℕ} → all_chars p s ≡ true → Memᴰ c s → p c ≡ true
unfolding all_chars
all_chars-Mem p [] h m = elim m [ ]
all_chars-Mem p (d ∷ s) h (Memᴰ.head e) = rw e ((and-eq-true_iff (p d) (all_chars p s)).0 h).0
all_chars-Mem p (d ∷ s) h (Memᴰ.tail m) =
    all_chars-Mem p s ((and-eq-true_iff (p d) (all_chars p s)).0 h).1 m

some_char-Mem : (p : ℕ → Bool) (s : Text) {c : ℕ} → some_char p s ≡ false → Memᴰ c s → p c ≡ false
unfolding some_char
some_char-Mem p [] h m = elim m [ ]
some_char-Mem p (d ∷ s) h m = elim (Bool-cases (p d)) [
  | inl y ↦ absurd (cc (rw y at h))
  | inr n ↦ here n m (λ l. some_char-Mem p s (rw n at h) l)
]
  where
    here : {c : ℕ} → p d ≡ false → Memᴰ c (d ∷ s) → (Memᴰ c s → p c ≡ false) → p c ≡ false
    here n (Memᴰ.head e) go = rw e n
    here n (Memᴰ.tail l) go = go l

-- A test that refuses both characters keeps them out.
kept_out :
    (p : ℕ → Bool) (c : ℕ) → p b'*' ≡ false → p b' ' ≡ false → p c ≡ true → (c ≢ b'*') × (c ≢ b' ')
kept_out p c a b h = (λ e. cc (rw e at h, a), λ e. cc (rw e at h, b))

all_chars-HasNoWildcard :
    (p : ℕ → Bool) (s : Text)
    → p b'*' ≡ false
    → p b' ' ≡ false
    → all_chars p s ≡ true
    → HasNoWildcard s
all_chars-HasNoWildcard p s a b h c m = kept_out p c a b (all_chars-Mem p s h m)

after-Mem :
    (prefix s : Text) {c : ℕ}
    → starts_with s prefix ≡ true
    → Memᴰ c s
    → Memᴰ c prefix ⊎ Memᴰ c (after prefix s)
unfolding starts_with
after-Mem [] s h m = inr m
after-Mem (c ∷ prefix) [] h m = elim m [ ]
after-Mem (c ∷ prefix) (d ∷ s) h (Memᴰ.head e) =
    inl (Memᴰ.head (e ∙ (==_iff d c).0 ((and-eq-true_iff (d == c) (starts_with s prefix)).0 h).0))
after-Mem (c ∷ prefix) (d ∷ s) h (Memᴰ.tail m) =
    elim (after-Mem prefix s ((and-eq-true_iff (d == c) (starts_with s prefix)).0 h).1 m) [
      | inl l ↦ inl (Memᴰ.tail l)
      | inr r ↦ inr r
    ]

length-after :
    (prefix s : Text)
    → starts_with s prefix ≡ true
    → length s ≡ length prefix + length (after prefix s)
unfolding starts_with
length-after [] s h = omega arith
length-after (c ∷ prefix) [] h = absurd (cc h)
length-after (c ∷ prefix) (d ∷ s) h =
    omega (arith, length-after prefix s ((and-eq-true_iff (d == c) (starts_with s prefix)).0 h).1)

-- What the shapes of the ids and names have in common.
abbrev IsShort : Text → Type 0
IsShort value = (length value ≤ 253) × HasNoWildcard value

is_id_char_out : (s : Text) → all_chars is_id_char s ≡ true → HasNoWildcard s
is_id_char_out s h = all_chars-HasNoWildcard is_id_char s refl refl h

both_true : (a b : Bool) → (a && b) ≡ true → (a ≡ true) × (b ≡ true)
both_true a b h = (and-eq-true_iff a b).0 h

all_true : (a b c : Bool) → (a && b && c) ≡ true → (a ≡ true) × (b ≡ true) × (c ≡ true)
all_true a b c h = ground arith

name-IsShort : (s : Text) → is_name s ≡ true → (length s ≤ 60) × HasNoWildcard s
unfolding is_name
name-IsShort s h =
    let (a, c, d) = all_true (leb 1 (length s)) (leb (length s) 60) _ h in
    (leb→le (length s) 60 c, all_chars-HasNoWildcard is_name_char s refl refl d)

prefixed-IsShort :
    (prefix s : Text)
    → length prefix ≤ 100
    → HasNoWildcard prefix
    → prefixed_name prefix s ≡ true
    → IsShort s
unfolding prefixed_name
prefixed-IsShort prefix s short clean h =
    let (a, b) = both_true (starts_with s prefix) _ h in
    let (l, n) = name-IsShort (after prefix s) b in
    (
      omega (arith, length-after prefix s a),
      λ c m. elim (after-Mem prefix s a m) [ inl i ↦ clean c i | inr i ↦ n c i ],
    )

video-IsShort : (s : Text) → video_id_re s ≡ true → IsShort s
unfolding video_id_re
video-IsShort s h =
    let (a, b) = both_true (length s == 11) _ h in
    let e : length s ≡ 11 = (==_iff (length s) 11).0 a in (omega (arith, e), is_id_char_out s b)

channel_id-IsShort : (s : Text) → channel_id_re s ≡ true → IsShort s
unfolding channel_id_re
channel_id-IsShort s h =
    let (a, c, d) = all_true (starts_with s (codes "UC")) (length s == 24) _ h in
    let e : length s ≡ 24 = (==_iff (length s) 24).0 c in (omega (arith, e), is_id_char_out s d)

one_true : (a b c : Bool) → (a || b || c) ≡ true → (a ≡ true) ⊎ (b ≡ true) ⊎ (c ≡ true)
one_true true b c h = inl refl
one_true false true c h = inr (inl refl)
one_true false false c h = inr (inr h)

either_true : (a b : Bool) → (a || b) ≡ true → (a ≡ true) ⊎ (b ≡ true)
either_true true b h = inl refl
either_true false b h = inr h

no_wildcard :
    (s : Text) → all_chars (λ c. not (c == b'*') && not (c == b' ')) s ≡ true → HasNoWildcard s
no_wildcard s h = all_chars-HasNoWildcard (λ c. not (c == b'*') && not (c == b' ')) s refl refl h

channel_name-IsShort : (s : Text) → channel_name_re s ≡ true → IsShort s
unfolding channel_name_re all_chars
channel_name-IsShort s h =
    elim (one_true (prefixed_name (codes "@") s) (prefixed_name (codes "c/") s)
      (prefixed_name (codes "user/") s) h) [
        | inl a ↦ prefixed-IsShort (codes "@") s (omega arith) (no_wildcard (codes "@") refl) a
        | inr (inl a) ↦
            prefixed-IsShort (codes "c/") s (omega arith) (no_wildcard (codes "c/") refl) a
        | inr (inr a) ↦
            prefixed-IsShort (codes "user/") s (omega arith) (no_wildcard (codes "user/") refl) a
      ]

playlist-IsShort : (s : Text) → bounded_playlist_re s ≡ true → IsShort s
unfolding bounded_playlist_re playlist_id_re
playlist-IsShort s h =
    let (a, b) = both_true (playlist_prefix s && leb 12 (length s) && all_chars is_id_char s) _ h in
    let (c, e, f) = all_true (playlist_prefix s) (leb 12 (length s)) _ a in
    let l : length s ≤ 52 = leb→le (length s) 52 b in (omega (arith, l), is_id_char_out s f)

app-IsShort : (s : Text) → app_id_re s ≡ true → IsShort s
unfolding app_id_re
app-IsShort s h =
    let (a, c, d) = all_true (leb 1 (length s)) (leb (length s) 200) _ h in
    let l : length s ≤ 200 = leb→le (length s) 200 c in
    (omega (arith, l), all_chars-HasNoWildcard is_name_char s refl refl d)

domain-IsShort : (s : Text) → is_plausible_host s ≡ true → IsShort s
unfolding is_space
domain-IsShort s h =
    let (l, f, d) = plausible s h in (l, λ c m. refused c (some_char-Mem is_forbidden s f m))
  where
    refused : (c : ℕ) → is_forbidden c ≡ false → (c ≢ b'*') × (c ≢ b' ')
    refused c h = (λ e. cc (rw e at h), λ e. cc (rw e at h))

module _ (web : UrlApi) (value : Text) where
  http_page :
      length value ≤ 2048 → is_http_url web value ≡ true → IsSpecific web value TargetType.url
  unfolding is_http_url
  http_page long h = read (web.parse value) refl h
    where
      two_true : (a b c : Bool) → ((a || b) && c) ≡ true → ((a ≡ true) ⊎ (b ≡ true)) × (c ≡ true)
      two_true true b c h = (inl refl, h)
      two_true false b c h = let (p, q) = both_true b c h in (inr p, q)

      not_nil : (s : Text) → nonempty s ≡ true → s ≢ []
      not_nil [] h = absurd (cc h)
      not_nil (c ∷ s) h = λ e. cc e

      read :
          (o : Option web.Url)
          → web.parse value ≡ o
          → (elim o [
            | none ↦ false
            | some u ↦
                (same (web.protocol u) (codes "http:") || same (web.protocol u) (codes "https:"))
                && nonempty (web.hostname u)
          ])
            ≡ true
          → IsSpecific web value TargetType.url
      read none e h = absurd (cc h)
      read (some u) e h =
          let (scheme, host) =
            two_true (same (web.protocol u) (codes "http:"))
              (same (web.protocol u) (codes "https:")) (nonempty (web.hostname u)) h in
          page long e
            (elim scheme [
              | inl a ↦ inl (same→eq (web.protocol u) (codes "http:") a)
              | inr b ↦ inr (same→eq (web.protocol u) (codes "https:") b)
            ])
            (not_nil (web.hostname u) host)

  has_shape-IsSpecific :
      (type : TargetType) → has_shape web type value ≡ true → IsSpecific web value type
  unfolding has_shape
  has_shape-IsSpecific TargetType.url h =
      let (a, b) = both_true (leb (length value) 2048) _ h in
      http_page (leb→le (length value) 2048 a) b
  has_shape-IsSpecific TargetType.domain h =
      let (l, n) = domain-IsShort value h in name (λ e. cc e) (λ e. cc e) (λ e. cc e) l n
  has_shape-IsSpecific TargetType.youtube_video h =
      let (l, n) = video-IsShort value h in name (λ e. cc e) (λ e. cc e) (λ e. cc e) l n
  has_shape-IsSpecific TargetType.youtube_channel h =
      let (l, n) : IsShort value =
        elim (either_true (channel_id_re value) (channel_name_re value) h) [
          | inl a ↦ channel_id-IsShort value a
          | inr b ↦ channel_name-IsShort value b
        ] in
      name (λ e. cc e) (λ e. cc e) (λ e. cc e) l n
  has_shape-IsSpecific TargetType.youtube_playlist h =
      let (l, n) = playlist-IsShort value h in name (λ e. cc e) (λ e. cc e) (λ e. cc e) l n
  has_shape-IsSpecific TargetType.application h =
      let (l, n) = app-IsShort value h in name (λ e. cc e) (λ e. cc e) (λ e. cc e) l n
  has_shape-IsSpecific TargetType.url_pattern h = absurd (cc h)
  has_shape-IsSpecific TargetType.category h = absurd (cc h)

  -- A DEVICE ASKS ABOUT ONE NAMEABLE THING. A target that is let through is never a URL pattern or a
  -- category. Where it is a URL, it has at most 2048 characters and the platform reads it as one with
  -- the scheme http or https and a host; else it has at most 253 characters, and no asterisk and no
  -- space among them.
  pub request_target-IsSpecific :
      (type : TargetType)
      → child_request_target_error web type value ≡ none
      → IsSpecific web value type
  request_target-IsSpecific type h =
      has_shape-IsSpecific type ((request_target_iff web type value).0 h).shape
