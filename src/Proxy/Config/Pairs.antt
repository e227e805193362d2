-- ===== src/Proxy/Config/Pairs.antt =====
-- What parse_config_file of tools/tsk-proxy.c makes of a file of keys with their values.
use mathlib.Core.Path.{fun_ext}
use libtimeseries.Base.{
  ℕ, ◌≡◌, refl, sym, ap, ◌∙◌, Bool, true, false, Option, none, some, List, [], ◌∷◌, ◌++◌, Bytes,
  length, ltb, Bool-cases, Outcome, done, ◌>>=◌, ◌>>◌, assert, inl, inr, bind_assoc,
}
use libtimeseries.Getopt.{atoi}
use libtimeseries.Proxy.Config.{
  max_filters, Token, key_token, value_token, other_token, scalar_token, Settings, Scan, Setting,
  int_setting, text_setting, filter_setting, unsupported, setting_of, scan_setting, set_filter,
  store_text, store_int, scan_value, scan_token, scan_tokens, finish_config, empty_config,
  parse_config_file,
}

-- The tokens of the pairs of a mapping, and of its end (BLOCK-END).
unfoldable block_tokens : List (Bytes × Bytes) → List Token
block_tokens [] = other_token ∷ []
block_tokens ((key, value) ∷ pairs) =
    key_token ∷ scalar_token key ∷ value_token ∷ scalar_token value ∷ block_tokens pairs

-- The tokens of a file that is a flat mapping of scalars, in front of STREAM-END: STREAM-START and, where
-- there is a pair, BLOCK-MAPPING-START and the mapping.
unfoldable pub tokens_of : List (Bytes × Bytes) → List Token
unfolding block_tokens
tokens_of [] = other_token ∷ []
tokens_of ((key, value) ∷ pairs) = other_token ∷ other_token ∷ block_tokens ((key, value) ∷ pairs)

-- What a value does to the settings, by its key: a number or a text is set, a filter is added, and
-- the value of an unsupported key is passed over.
unfoldable pub configure : Setting → Bytes → Settings → Outcome Settings
configure (int_setting slot) value s = atoi value >>= λ n. done (store_int slot n s)
configure (text_setting slot) value s = done (record s { cfg = store_text slot value s.cfg })
configure filter_setting value s =
    assert (ltb (length s.cfg.filters) max_filters)
    >> done (record s { cfg = record s.cfg { filters = s.cfg.filters ++ (some value ∷ []) } })
configure unsupported value s = done s

-- The pairs in their order.
unfoldable pub configure_all : List (Bytes × Bytes) → Settings → Outcome Settings
configure_all [] s = done s
configure_all ((key, value) ∷ pairs) s =
    configure (setting_of key) value s >>= λ s'. configure_all pairs s'

set_filter-length :
    (fs : List (Option Bytes)) (text : Bytes)
    → set_filter (length fs) text (fs ++ (none ∷ [])) ≡ fs ++ (some text ∷ [])
unfolding set_filter
set_filter-length [] text = refl
set_filter-length (f ∷ fs) text = ap (λ l. f ∷ l) (set_filter-length fs text)

-- The scan between two pairs.
abbrev between : Bool → Settings → Scan
between state s = record { state = state; textp = none; intp = none; settings = s }

-- A key and then its value.
scan_pair :
    (setting : Setting) (value : Bytes) (s : Settings)
    → (scan_setting setting (between false s) >>= λ s'.
        scan_value s'.textp s'.intp value (record s' { state = true }))
      ≡ (configure setting value s >>= λ s'. done (between true s'))
unfolding scan_setting scan_value configure store_text
scan_pair (int_setting slot) value s = sym (bind_assoc (atoi value) _ _)
scan_pair (text_setting slot) value s = refl
scan_pair filter_setting value s = elim (Bool-cases (ltb (length s.cfg.filters) max_filters)) [
  | inl room ↦ rw room (
      ap (λ fs. done (between true (record s { cfg = record s.cfg { filters = fs } })))
        (set_filter-length s.cfg.filters value))
  | inr full ↦ rw full refl
]
scan_pair unsupported value s = refl

-- The loop, with what uses its settings.
scan_pairs :
    {B : Type 0}
    → (pairs : List (Bytes × Bytes)) (state : Bool) (s : Settings) (k : Settings → Outcome B)
    → (scan_tokens (block_tokens pairs) (between state s) >>= λ s'. k s'.settings)
      ≡ (configure_all pairs s >>= k)
unfolding block_tokens configure_all scan_tokens scan_token
scan_pairs [] state s k = refl
scan_pairs ((key, value) ∷ pairs) state s k =
    let first = scan_pair (setting_of key) value s in
    let loop : Scan → Outcome Scan = λ s'. scan_tokens (block_tokens pairs) s' in
    let after : Scan → Outcome Scan =
      λ s'. scan_value s'.textp s'.intp value (record s' { state = true }) in
    let opened = scan_setting (setting_of key) (between false s) in
    ap (λ m. m >>= λ s'. k s'.settings) (sym (bind_assoc opened after loop))
    ∙ bind_assoc (opened >>= after) loop (λ s'. k s'.settings)
    ∙ ap (λ m. m >>= λ s'. (loop s' >>= λ s₂. k s₂.settings)) first
    ∙ bind_assoc (configure (setting_of key) value s) _ _
    ∙ ap (λ f. configure (setting_of key) value s >>= f)
        (fun_ext (λ s'. scan_pairs pairs true s' k))
    ∙ sym (bind_assoc (configure (setting_of key) value s) _ _)

-- On the tokens of a file of keys with their values, where the three calls in front of the loop
-- succeed, parse_config_file takes the pairs in their order, and then stores the lengths.
pub parse_config_file-configure_all :
    (pairs : List (Bytes × Bytes)) (log_level stats_interval : ℕ)
    → parse_config_file true true true (tokens_of pairs) log_level stats_interval ≡ (
        configure_all pairs
          (record { cfg = empty_config; log_level = log_level; stats_interval = stats_interval })
        >>= λ s. finish_config s >>= λ settings. done (some settings))
unfolding parse_config_file tokens_of scan_tokens scan_token configure_all
parse_config_file-configure_all [] log_level stats_interval = refl
parse_config_file-configure_all ((key, value) ∷ pairs) log_level stats_interval =
    scan_pairs ((key, value) ∷ pairs) false _ _
