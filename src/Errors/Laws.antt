-- ===== src/Errors/Laws.antt =====
-- `extendDNSError`, given what `mergo.Merge` documents, and which errors are temporary.
use getresolvd.Base.{Bool, ◌∙◌, false, [], ◌∷◌, ◌≡◌, refl, some, Text}
use getresolvd.Errors.{
  DnsError, empty_dns_error, Errors, dns_error, joined, Result, ok, err, panic, ◌>>=◌, Merge,
  filled, or_text, extend_dns_error, is_temporary,
}

-- The documented behaviour of `mergo.Merge`.
abbrev pub MergeFills : Merge → Type 0
MergeFills merge = (dst src : DnsError) → merge dst src ≡ some (filled dst src)

pub extend_dns_error_lem {ℓ} :
    {A : Type ℓ} (merge : Merge) (dst src : DnsError)
    → MergeFills merge
    → extend_dns_error {A = A} merge dst src ≡ err (dns_error (filled dst src))
unfolding extend_dns_error
extend_dns_error_lem merge dst src m = rw (m dst src, extend_dns_error)

-- A joined error is never temporary, whatever it joins.
pub is_temporary-joined : (es : Errors) → is_temporary (joined es) ≡ false
unfolding is_temporary
is_temporary-joined es = refl

-- Inversion of a successful bind.
pub >>=-eq-ok {ℓ κ} :
    {A : Type ℓ} {B : Type κ} (first : Result A) (next : A → Result B) {last : B}
    → first >>= next ≡ ok last
    → (middle : A) × (next middle ≡ ok last) × (first ≡ ok middle)
>>=-eq-ok panic next e = cc
>>=-eq-ok (err x) next e = cc
>>=-eq-ok (ok a) next e = (a, e, refl)

pub or_text_nil : (s : Text) → or_text s [] ≡ s
or_text_nil [] = refl
or_text_nil (c ∷ s) = refl

-- What holds of a result that is a value.
abbrev pub IfOk {ℓ κ} : {A : Type ℓ} → (A → Type κ) → Result A → Type κ
IfOk P (ok a) = P a
IfOk P (err e) = Unit
IfOk P panic = Unit

pub IfOk-map {ℓ κ ν} :
    {A : Type ℓ} (P : A → Type κ) (Q : A → Type ν) (r : Result A)
    → ((a : A) → P a → Q a)
    → IfOk P r
    → IfOk Q r
IfOk-map P Q (ok a) f h = f a h
IfOk-map P Q (err e) f h = tt
IfOk-map P Q panic f h = tt

pub IfOk->>= {ℓ κ ν} :
    {A : Type ℓ} {B : Type κ} (P : B → Type ν) (m : Result A) (f : A → Result B)
    → ((a : A) → IfOk P (f a))
    → IfOk P (m >>= f)
IfOk->>= P (ok a) f h = h a
IfOk->>= P (err e) f h = tt
IfOk->>= P panic f h = tt

-- An error that has a name and a server only takes all else from the other one.
pub extend_named {ℓ} :
    {A : Type ℓ} (merge : Merge)
    → MergeFills merge
    → (name server text : Text) (timeout temporary missing : Bool)
    → extend_dns_error {A = A} merge
        (record empty_dns_error { name = name; server = server })
        (record {
          err = text;
          name = [];
          server = [];
          is_timeout = timeout;
          is_temporary = temporary;
          is_not_found = missing;
        })
      ≡ err (
          dns_error (record {
            err = text;
            name = name;
            server = server;
            is_timeout = timeout;
            is_temporary = temporary;
            is_not_found = missing;
          }))
extend_named merge fills name server text timeout temporary missing =
    extend_dns_error_lem merge _ _ fills ∙ cc (or_text_nil name, or_text_nil server)
