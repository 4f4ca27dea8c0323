-- ===== src/Config/Brokers.antt =====
-- The list of brokers that the environment gives.
use Prim.Native.Char.{Char, code}
use Prim.Native.String.{[] as no_chars, ◌∷◌ as char_then, String}
use Prim.Native.String.append.{nil, cons}
use student_service.Common.{
  ◌≡◌, ◌≢◌, refl, ◌∙◌, ap, ap₂, Bool, true, false, List, [], ◌∷◌, map, All, str_eq, str_eq_iff,
  text_append, ◌==◌, if◌then◌else◌, arith, Bool-cases, inl, inr,
}
use student_service.Result.{ok}
use student_service.Import.Cells.{trim_space}
use student_service.Config.{Config, Viper, split_commas, apply_environment, init_config}

-- A list of texts with commas between them.
abbrev pub comma_separated : List String → String
comma_separated [] = ""
comma_separated (p ∷ []) = p
comma_separated (p ∷ q ∷ ps) = text_append p (text_append "," (comma_separated (q ∷ ps)))

-- No comma stands in a text.
abbrev pub no_comma : String → Bool
no_comma no_chars = true
no_comma (char_then c s) = if code c == b',' then false else no_comma s

-- An address as it can stand in the list.
abbrev pub IsAddress : String → Type 0
IsAddress p = (no_comma p ≡ true) × (trim_space p ≡ p)

no_comma-head :
    (c : Char) (s : String)
    → no_comma (char_then c s) ≡ true
    → (code c == b',' ≡ false) × (no_comma s ≡ true)
no_comma-head c s h = elim (Bool-cases (code c == b',')) [
  | inl e ↦ absurd (ground arith)
  | inr e ↦ (e, ground arith)
]

split_commas-last : (p : String) → no_comma p ≡ true → split_commas p ≡ p ∷ []
unfolding split_commas
split_commas-last no_chars h = refl
split_commas-last (char_then c s) h =
    let (e, h') = no_comma-head c s h in rw (e, split_commas-last s h') refl

split_commas-next :
    (p rest : String)
    → no_comma p ≡ true
    → split_commas (text_append p (text_append "," rest)) ≡ p ∷ split_commas rest
unfolding split_commas
split_commas-next no_chars rest h =
    ap split_commas (nil (text_append "," rest) ∙ cons "," "" rest ∙ ap (char_then ",") (nil rest))
split_commas-next (char_then c s) rest h =
    let (e, h') = no_comma-head c s h in
    ap split_commas (cons c s (text_append "," rest)) ∙ rw (e, split_commas-next s rest h') refl

pub split_commas-comma_separated :
    (p : String) (ps : List String)
    → All IsAddress (p ∷ ps)
    → split_commas (comma_separated (p ∷ ps)) ≡ p ∷ ps
split_commas-comma_separated p [] h = split_commas-last p h.0.0
split_commas-comma_separated p (q ∷ ps) h =
    split_commas-next p (comma_separated (q ∷ ps)) h.0.0
    ∙ ap (λ parts. p ∷ parts) (split_commas-comma_separated q ps h.1)

pub map-trim_space : (ps : List String) → All IsAddress ps → map trim_space ps ≡ ps
map-trim_space [] h = refl
map-trim_space (p ∷ ps) h = ap₂ (λ q qs. q ∷ qs) h.0.1 (map-trim_space ps h.1)

-- The brokers of the environment, written with commas between them, are the brokers of the configuration.
pub init_config-comma_separated :
    {V : Type 0} (viper : Viper V) (getenv : String → String) (path : String) (v : V) (c : Config)
    (p : String) (ps : List String)
    → viper.read_in_config path ≡ ok v
    → viper.unmarshal v ≡ ok c
    → All IsAddress (p ∷ ps)
    → comma_separated (p ∷ ps) ≢ ""
    → getenv "APP_KAFKA_BROKERS" ≡ comma_separated (p ∷ ps)
    → getenv "APP_MYSQL_HOST" ≡ ""
    → getenv "APP_REDIS_HOST" ≡ ""
    → init_config viper getenv path ≡ ok (record c { kafka = record c.kafka { brokers = p ∷ ps } })
unfolding init_config apply_environment
init_config-comma_separated viper getenv path v c p ps r u a n k m s =
    elim (Bool-cases (str_eq (comma_separated (p ∷ ps)) "")) [
      | inl e ↦ absurd (n ((str_eq_iff _ _).0 e))
      | inr e ↦
          rw
            (
              init_config,
              r,
              u,
              apply_environment,
              k,
              m,
              s,
              e,
              split_commas-comma_separated p ps a,
              map-trim_space (p ∷ ps) a,
            )
            refl
    ]
