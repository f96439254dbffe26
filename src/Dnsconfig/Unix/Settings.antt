-- ===== src/Dnsconfig/Unix/Settings.antt =====
-- A resolv.conf written from settings, and what the line `options` of it sets.
use getresolvd.Base.{
  ℕ, ◌*◌, ◌≤◌, ◌<◌, ◌^◌, Bool, true, false, List, [], ◌∷◌, ◌++◌, ◌≡◌, refl, ap, ◌∙◌, arith, Text,
  codes, join_text, map, All, pos,
}
use getresolvd.Base.Texts.Words.{IsWord, no_space, no_space-append}
use getresolvd.Dnsconfig.{Config, second}
use getresolvd.Dnsconfig.Atoi.Decimal.{decimal, decimal-no_space, atoi-decimal}
use getresolvd.Dnsconfig.Laws.{timeout_of-exact}
use getresolvd.Dnsconfig.Options.{set_option, set_options, timeout_of, clamp_n_dots, at_least_one}

-- What a resolv.conf can say of the servers, the search list and the options.
pub record Settings : Type 0 where
  pub servers : List Text
  pub search : List Text
  pub lookup : List Text
  pub n_dots : ℕ
  pub timeout : ℕ
  pub attempts : ℕ
  pub rotate : Bool
  pub single_request : Bool
  pub use_tcp : Bool
  pub trust_ad : Bool
  pub no_reload : Bool

abbrev pub flag : Bool → Text → List Text → List Text
flag true t rest = t ∷ rest
flag false t rest = rest

abbrev n_dots_word : Settings → Text
n_dots_word s = codes "ndots:" ++ decimal s.n_dots

abbrev timeout_word : Settings → Text
timeout_word s = codes "timeout:" ++ decimal s.timeout

abbrev attempts_word : Settings → Text
attempts_word s = codes "attempts:" ++ decimal s.attempts

abbrev flag_words : Settings → List Text
flag_words s = flag s.rotate (codes "rotate") (
    flag s.single_request (codes "single-request") (
      flag s.use_tcp (codes "use-vc")
        (flag s.trust_ad (codes "trust-ad") (flag s.no_reload (codes "no-reload") []))))

abbrev pub option_words : Settings → List Text
option_words s = n_dots_word s ∷ timeout_word s ∷ attempts_word s ∷ flag_words s

-- A line of words.
abbrev pub line_of : List Text → Text
line_of ws = join_text ws (codes " ")

-- The lines of the file.
abbrev pub lines_of : Settings → List Text
lines_of s =
    map (λ server. line_of (codes "nameserver" ∷ server ∷ [])) s.servers
    ++ (line_of (codes "search" ∷ s.search)
        ∷ line_of (codes "lookup" ∷ s.lookup)
        ∷ line_of (codes "options" ∷ option_words s)
        ∷ [])

flag-All :
    (b : Bool) (t : Text) (rest : List Text)
    → IsWord t
    → All IsWord rest
    → All IsWord (flag b t rest)
flag-All true t rest h k = (h, k)
flag-All false t rest h k = k

codes-IsWord : (s : Text) (c : ℕ) → no_space (c ∷ s) ≡ true → IsWord (c ∷ s)
codes-IsWord s c h = (λ e. cc, h)

pub option_words-All : (s : Settings) → All IsWord (option_words s)
option_words-All s = (
  codes-IsWord _ b'n'
      (no_space-append (codes "ndots:") (decimal s.n_dots) refl (decimal-no_space s.n_dots)),
  (
    codes-IsWord _ b't'
        (no_space-append (codes "timeout:") (decimal s.timeout) refl (decimal-no_space s.timeout)),
    (
      codes-IsWord _ b'a' (
          no_space-append (codes "attempts:") (decimal s.attempts) refl
            (decimal-no_space s.attempts)),
      flag-All s.rotate (codes "rotate") _ (codes-IsWord _ _ refl) (
          flag-All s.single_request (codes "single-request") _ (codes-IsWord _ _ refl) (
            flag-All s.use_tcp (codes "use-vc") _ (codes-IsWord _ _ refl) (
              flag-All s.trust_ad (codes "trust-ad") _ (codes-IsWord _ _ refl)
                (flag-All s.no_reload (codes "no-reload") [] (codes-IsWord _ _ refl) tt)))),
    ),
  ),
)

-- A flag that is not set yet is set by its word.
set_options-flag :
    (put : Bool → Config) (c : Config) (b : Bool) (t : Text) (rest : List Text)
    → set_option c t ≡ put true
    → c ≡ put false
    → set_options c (flag b t rest) ≡ set_options (put b) rest
unfolding set_options
set_options-flag put c true t rest h k = ap (λ d. set_options d rest) h
set_options-flag put c false t rest h k = ap (λ d. set_options d rest) k

-- The numbers of the options are in the ranges that `Read` does not clamp.
pub record HasRanges (s : Settings) : Type 0 where
  pub dots : s.n_dots ≤ 15
  pub some_seconds : 1 ≤ s.timeout
  pub few_seconds : s.timeout ≤ 9223372036
  pub some_attempts : 1 ≤ s.attempts
  pub few_attempts : s.attempts < 2 ^ 63

set_option-n_dots :
    (c : Config) (n : ℕ)
    → n ≤ 15
    → set_option c (codes "ndots:" ++ decimal n) ≡ record c { n_dots = pos n }
unfolding set_option clamp_n_dots
set_option-n_dots c n h =
    ap (λ k. record c { n_dots = k })
      (ap clamp_n_dots (atoi-decimal n (omega arith)) ∙ ground arith)

set_option-timeout :
    (c : Config) (n : ℕ)
    → 1 ≤ n
    → n ≤ 9223372036
    → set_option c (codes "timeout:" ++ decimal n) ≡ record c { timeout = pos (n * second) }
unfolding set_option
set_option-timeout c n h k =
    ap (λ t. record c { timeout = t })
      (ap timeout_of (atoi-decimal n (omega arith)) ∙ timeout_of-exact n h k)

set_option-attempts :
    (c : Config) (n : ℕ)
    → 1 ≤ n
    → n < 2 ^ 63
    → set_option c (codes "attempts:" ++ decimal n) ≡ record c { attempts = pos n }
unfolding set_option at_least_one
set_option-attempts c n h k =
    ap (λ a. record c { attempts = a }) (ap at_least_one (atoi-decimal n k) ∙ ground arith)

-- The options of the settings, over those of a configuration.
abbrev pub with_options : Config → Settings → Config
with_options c s = record c {
  n_dots = pos s.n_dots;
  timeout = pos (s.timeout * second);
  attempts = pos s.attempts;
  rotate = s.rotate;
  single_request = s.single_request;
  use_tcp = s.use_tcp;
  trust_ad = s.trust_ad;
  no_reload = s.no_reload;
}

-- No flag is set.
pub record IsUnflagged (c : Config) : Type 0 where
  pub no_rotate : c.rotate ≡ false
  pub no_single_request : c.single_request ≡ false
  pub no_use_tcp : c.use_tcp ≡ false
  pub no_trust_ad : c.trust_ad ≡ false
  pub no_no_reload : c.no_reload ≡ false

flags : Config → Settings → Config
flags c s = record c {
  rotate = s.rotate;
  single_request = s.single_request;
  use_tcp = s.use_tcp;
  trust_ad = s.trust_ad;
  no_reload = s.no_reload;
}

set_options-flags :
    (c : Config) (s : Settings) → IsUnflagged c → set_options c (flag_words s) ≡ flags c s
unfolding set_options set_option flags
set_options-flags c s h =
    let c1 : Config = record c { rotate = s.rotate } in
    let c2 : Config = record c1 { single_request = s.single_request } in
    let c3 : Config = record c2 { use_tcp = s.use_tcp } in
    let c4 : Config = record c3 { trust_ad = s.trust_ad } in
    set_options-flag (λ b. record c { rotate = b }) c s.rotate (codes "rotate") _ refl
      (ap (λ v. record c { rotate = v }) h.no_rotate)
    ∙ (set_options-flag (λ b. record c1 { single_request = b }) c1 s.single_request
          (codes "single-request") _ refl
          (ap (λ v. record c1 { single_request = v }) h.no_single_request)
        ∙ (set_options-flag (λ b. record c2 { use_tcp = b }) c2 s.use_tcp (codes "use-vc") _ refl
              (ap (λ v. record c2 { use_tcp = v }) h.no_use_tcp)
            ∙ (set_options-flag (λ b. record c3 { trust_ad = b }) c3 s.trust_ad (codes "trust-ad") _
                  refl (ap (λ v. record c3 { trust_ad = v }) h.no_trust_ad)
                ∙ set_options-flag (λ b. record c4 { no_reload = b }) c4 s.no_reload
                    (codes "no-reload") [] refl
                    (ap (λ v. record c4 { no_reload = v }) h.no_no_reload))))

set_options-cons :
    (c : Config) (t : Text) (rest : List Text) (d : Config)
    → set_option c t ≡ d
    → set_options c (t ∷ rest) ≡ set_options d rest
unfolding set_options
set_options-cons c t rest d h = ap (λ e. set_options e rest) h

pub set_options-option_words :
    (c : Config) (s : Settings)
    → HasRanges s
    → IsUnflagged c
    → set_options c (option_words s) ≡ with_options c s
unfolding set_options flags
set_options-option_words c s r h =
    let dotted : Config = record c { n_dots = pos s.n_dots } in
    let timed : Config = record dotted { timeout = pos (s.timeout * second) } in
    set_options-cons c (n_dots_word s) (timeout_word s ∷ attempts_word s ∷ flag_words s) dotted
      (set_option-n_dots c s.n_dots r.dots)
    ∙ (set_options-cons dotted (timeout_word s) (attempts_word s ∷ flag_words s) timed
          (set_option-timeout dotted s.timeout r.some_seconds r.few_seconds)
        ∙ (set_options-cons timed (attempts_word s) (flag_words s)
              (record timed { attempts = pos s.attempts })
              (set_option-attempts timed s.attempts r.some_attempts r.few_attempts)
            ∙ set_options-flags (record timed { attempts = pos s.attempts }) s
                (record {
                  no_rotate = h.no_rotate;
                  no_single_request = h.no_single_request;
                  no_use_tcp = h.no_use_tcp;
                  no_trust_ad = h.no_trust_ad;
                  no_no_reload = h.no_no_reload;
                })))
