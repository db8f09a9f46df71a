-- ===== src/Heartbeat/Laws.antt =====
-- The URL of a heartbeat monitor: what buildHeartbeatURL made is not changed by building again
-- (internal/controller/monitor_controller.go).
use Prim.Native.Char.{Char, code}
use Prim.Native.String.{◌++◌}
use text.Mathlib.TextEquality.{Char-path}
use text.Mathlib.TextLemmas.{append_assoc, append-nil, cons-append, append-ne-nil_of_right_ne-nil}
use uptime_robot_operator.Prelude.{
  and_true_left, or_true-cases, or_true_right, ◌≡◌, ◌≢◌, refl, ◌∙◌, sym, ap, ℕ, String, true, false,
  [], ◌∷◌, arith, ◌==◌, same_text, Bool-cases, inl, inr, ◌⊎◌, same_text_iff,
}
use uptime_robot_operator.Text.{
  has_prefix, is_space, trim_left, trim_right, trim_space, trim_slash, concat, is_blank,
}
use uptime_robot_operator.Text.Laws.{has_prefix-append_left}
use uptime_robot_operator.Text.Trim.{Ends, Starts, Ends-append, trim_space_of, Ends-trim_space}
use uptime_robot_operator.Heartbeat.{
  is_absolute, with_scheme, normalize_heartbeat_base_url, key_path, build_heartbeat_url,
  is_prefixed_heartbeat_key, default_heartbeat_base_url,
}

equal_codes : (m n : ℕ) → (m == n) ≡ true → m ≡ n
equal_codes m n h = ground arith

trim_slash-cases : (s : String) → (trim_slash s ≡ s) ⊎ (trim_slash s ++ "/" ≡ s)
unfolding trim_slash
trim_slash-cases String.[] = inl refl
trim_slash-cases (String.◌∷◌ c String.[]) = elim (Bool-cases (code c == b'/')) [
  | inl e ↦
      inr (rw e (ap (λ d. String.◌∷◌ d "") (Char-path "/" c (sym (equal_codes (code c) b'/' e)))))
  | inr e ↦ inl (rw e)
]
trim_slash-cases (String.◌∷◌ c (String.◌∷◌ d s)) = elim (trim_slash-cases (String.◌∷◌ d s)) [
  | inl e ↦ inl (ap (String.◌∷◌ c) e)
  | inr e ↦ inr (cons-append c (trim_slash (String.◌∷◌ d s)) "/" ∙ ap (String.◌∷◌ c) e)
]

trim_left_solid : (d : Char) (s : String) → is_space (code d) ≡ false → Starts (String.◌∷◌ d s)
unfolding trim_left
trim_left_solid d s h = rw h

Starts-of_prefix :
    (c : Char) (p s : String)
    → is_space (code c) ≡ false
    → has_prefix s (String.◌∷◌ c p) ≡ true
    → Starts s
unfolding has_prefix trim_left
Starts-of_prefix c p String.[] b h = refl
Starts-of_prefix c p (String.◌∷◌ d s) b h =
    let same : code d ≡ code c = equal_codes (code d) (code c) (and_true_left _ _ h) in
    trim_left_solid d s (ap (λ n. is_space n) same ∙ b)

absolute-Starts : (s : String) → is_absolute s ≡ true → Starts s
unfolding is_absolute is_space
absolute-Starts s h = elim (or_true-cases _ _ h) [
  | inl e ↦ Starts-of_prefix "h" "ttp://" s refl e
  | inr e ↦ Starts-of_prefix "h" "ttps://" s refl e
]

absolute-append : (s t : String) → is_absolute s ≡ true → is_absolute (s ++ t) ≡ true
unfolding is_absolute
absolute-append s t h = elim (or_true-cases _ _ h) [
  | inl e ↦ rw (has_prefix-append_left s t "http://" e)
  | inr e ↦ or_true_right _ _ (has_prefix-append_left s t "https://" e)
]

https_absolute : (s : String) → is_absolute (concat ("https://" ∷ s ∷ [])) ≡ true
unfolding is_absolute concat has_prefix
https_absolute s = or_true_right _ _ (has_prefix-append_left "https://" (s ++ "") "https://" refl)

with_scheme_absolute : (s : String) → is_absolute (with_scheme s) ≡ true
unfolding with_scheme
with_scheme_absolute s = elim (Bool-cases (is_absolute s)) [
  | inl e ↦ rw e e
  | inr e ↦ rw e (https_absolute s)
]

trim_slash_absolute :
    (s t : String) → is_absolute s ≡ true → is_absolute (trim_slash s ++ ("/" ++ t)) ≡ true
trim_slash_absolute s t h = elim (trim_slash-cases s) [
  | inl e ↦ rw e (absolute-append s ("/" ++ t) h)
  | inr e ↦
      rw (sym (append_assoc (trim_slash s) "/" t))
        (ap (λ u. is_absolute (u ++ t)) e ∙ absolute-append s t h)
]

base_absolute : (b t : String) → is_absolute (normalize_heartbeat_base_url b ++ ("/" ++ t)) ≡ true
unfolding normalize_heartbeat_base_url is_absolute has_prefix
base_absolute b t = elim (Bool-cases (is_blank (trim_space b))) [
  | inl e ↦ rw e (absolute-append default_heartbeat_base_url ("/" ++ t) refl)
  | inr e ↦
      rw e
        (trim_slash_absolute (with_scheme (trim_space b)) t (with_scheme_absolute (trim_space b)))
]

nonblank : (s : String) → is_blank s ≡ false → s ≢ ""
nonblank s h = ground (arith, same_text_iff s "")

prefixed-Ends :
    (i t : String)
    → t ≢ ""
    → Ends t
    → (("m" ++ (i ++ ("-" ++ t))) ≢ "") × Ends ("m" ++ (i ++ ("-" ++ t)))
prefixed-Ends i t n e =
    let dashed : ("-" ++ t) ≢ "" = append-ne-nil_of_right_ne-nil "-" n in
    let with_id : (i ++ ("-" ++ t)) ≢ "" = append-ne-nil_of_right_ne-nil i dashed in
    (
      append-ne-nil_of_right_ne-nil "m" with_id,
      Ends-append "m" (i ++ ("-" ++ t)) with_id
          (Ends-append i ("-" ++ t) dashed (Ends-append "-" t n e)),
    )

key_path-Ends : (i t : String) → t ≢ "" → Ends t → (key_path i t ≢ "") × Ends (key_path i t)
unfolding concat key_path
key_path-Ends i t n e = elim (Bool-cases (is_prefixed_heartbeat_key t)) [
  | inl k ↦ rw k (n, e)
  | inr k ↦ elim (Bool-cases (is_blank i)) [
    | inl z ↦ rw k (rw z (n, e))
    | inr z ↦ rw k (rw z (rw (append-nil t) (prefixed-Ends i t n e)))
  ]
]

built-Ends :
    (b i t : String)
    → t ≢ ""
    → Ends t
    → Ends (concat (normalize_heartbeat_base_url b ∷ "/" ∷ key_path i t ∷ []))
unfolding concat
built-Ends b i t n e =
    let path = key_path-Ends i t n e in
    rw (append-nil (key_path i t)) (
      Ends-append (normalize_heartbeat_base_url b) ("/" ++ key_path i t)
        (append-ne-nil_of_right_ne-nil "/" path.0) (Ends-append "/" (key_path i t) path.0 path.1))

-- an absolute URL that is trimmed already
settled :
    (b i s : String) → Starts s → Ends s → is_absolute s ≡ true → build_heartbeat_url b i s ≡ s
unfolding build_heartbeat_url
settled b i s p q a = rw (trim_space_of s p q) (elim (Bool-cases (is_blank s)) [
  | inl e ↦ rw e (sym ((same_text_iff s "").0 e))
  | inr e ↦ rw e (rw a)
])

settled_blank : (b i : String) → build_heartbeat_url b i "" ≡ ""
unfolding build_heartbeat_url trim_space trim_left trim_right same_text
settled_blank b i = refl

built_blank :
    (b i api_url : String)
    → is_blank (trim_space api_url) ≡ true
    → build_heartbeat_url b i api_url ≡ ""
unfolding build_heartbeat_url
built_blank b i api_url e = rw e

built_absolute :
    (b i api_url : String)
    → is_blank (trim_space api_url) ≡ false
    → is_absolute (trim_space api_url) ≡ true
    → build_heartbeat_url b i api_url ≡ trim_space api_url
unfolding build_heartbeat_url
built_absolute b i api_url e a = rw e (rw a)

built_key :
    (b i api_url : String)
    → is_blank (trim_space api_url) ≡ false
    → is_absolute (trim_space api_url) ≡ false
    → build_heartbeat_url b i api_url
      ≡ concat (normalize_heartbeat_base_url b ∷ "/" ∷ key_path i (trim_space api_url) ∷ [])
unfolding build_heartbeat_url
built_key b i api_url e a = rw e (rw a)

built_key_absolute :
    (b k : String) → is_absolute (concat (normalize_heartbeat_base_url b ∷ "/" ∷ k ∷ [])) ≡ true
unfolding concat
built_key_absolute b k = base_absolute b (k ++ "")

-- Building the URL of a heartbeat monitor again, with any base URL and any id, changes nothing.
pub build_heartbeat_url_again :
    (b b' i i' api_url : String)
    → build_heartbeat_url b' i' (build_heartbeat_url b i api_url) ≡ build_heartbeat_url b i api_url
build_heartbeat_url_again b b' i i' api_url =
    let key = trim_space api_url in
    elim (Bool-cases (is_blank key)) [
      | inl e ↦ rw (built_blank b i api_url e) (settled_blank b' i')
      | inr e ↦ elim (Bool-cases (is_absolute key)) [
        | inl a ↦
            rw (built_absolute b i api_url e a)
              (settled b' i' key (absolute-Starts key a) (Ends-trim_space api_url) a)
        | inr a ↦
            let url = concat (normalize_heartbeat_base_url b ∷ "/" ∷ key_path i key ∷ []) in
            let absolute = built_key_absolute b (key_path i key) in
            rw (built_key b i api_url e a) (
              settled b' i' url (absolute-Starts url absolute)
                (built-Ends b i key (nonblank key e) (Ends-trim_space api_url)) absolute)
      ]
    ]

-- The URL built for an API answer that is not blank begins with http:// or https://, whatever the
-- base URL is.
pub build_heartbeat_url_absolute :
    (b i api_url : String)
    → is_blank (trim_space api_url) ≡ false
    → is_absolute (build_heartbeat_url b i api_url) ≡ true
build_heartbeat_url_absolute b i api_url e =
    let key = trim_space api_url in
    elim (Bool-cases (is_absolute key)) [
      | inl a ↦ rw (built_absolute b i api_url e a) a
      | inr a ↦ rw (built_key b i api_url e a) (built_key_absolute b (key_path i key))
    ]
