-- ===== src/Errors.antt =====
-- errors.go, and what the program uses of Go's errors: package errors, net.DNSError and the errors
-- of packages context and net.
pub mod Laws
use getresolvd.Base.{
  Bool, true, false, ◌||◌, List, [], ◌∷◌, ◌++◌, Option, none, some, Text, codes, if◌then◌else◌,
}

-- `net.DNSError`.
pub record DnsError : Type 0 where
  pub err : Text
  pub name : Text
  pub server : Text
  pub is_timeout : Bool
  pub is_temporary : Bool
  pub is_not_found : Bool

mutual
  -- An error value: `errors.New`, the two errors of a context, an error of package net with what
  -- its method `Timeout` says, a `*net.DNSError`, `fmt.Errorf("text: %w", err)`, `errors.Join`.
  pub data Error : Type 0 where
    plain : Text → Error
    deadline_exceeded : Error
    canceled : Error
    net_error : Text → Bool → Error
    dns_error : DnsError → Error
    wrapped : Text → Error → Error
    joined : Errors → Error

  pub data Errors : Type 0 where
    nil : Errors
    cons : Error → Errors → Errors

abbrev pub to_errors : List Error → Errors
to_errors [] = nil
to_errors (e ∷ es) = cons e (to_errors es)

-- What a Go call returns: a value, an error, or a panic that ends the program.
pub data Result {ℓ} (A : Type ℓ) : Type ℓ where
  ok : A → Result A
  err : Error → Result A
  panic : Result A

infixl 5 ◌>>=◌
abbrev pub ◌>>=◌ {ℓ κ} : {A : Type ℓ} {B : Type κ} → Result A → (A → Result B) → Result B
panic >>= next = panic
err e >>= next = err e
ok a >>= next = next a

abbrev pub err_no_such_host : Text
err_no_such_host = codes "no such host"

abbrev pub err_server_misbehaving : Text
err_server_misbehaving = codes "server misbehaving"

abbrev pub err_unsupported_network : Text
err_unsupported_network = codes "unsupported network"

abbrev pub err_unsupported_protocol : Text
err_unsupported_protocol = codes "unsupported protocol"

abbrev pub empty_dns_error : DnsError
empty_dns_error = record {
  err = [];
  name = [];
  server = [];
  is_timeout = false;
  is_temporary = false;
  is_not_found = false;
}

-- `(*DNSError).Error`.
abbrev pub dns_error_text : DnsError → Text
dns_error_text d = codes "lookup " ++ (d.name ++ (on_server d.server ++ (codes ": " ++ d.err)))
  where
    on_server : Text → Text
    on_server [] = []
    on_server (c ∷ s) = codes " on " ++ (c ∷ s)

-- `err.Error()`.
unfoldable mutual
  pub error_text : Error → Text
  error_text (plain s) = s
  error_text deadline_exceeded = codes "context deadline exceeded"
  error_text canceled = codes "context canceled"
  error_text (net_error s _) = s
  error_text (dns_error d) = dns_error_text d
  error_text (wrapped s e) = s ++ (codes ": " ++ error_text e)
  error_text (joined es) = errors_text es

  errors_text : Errors → Text
  errors_text nil = []
  errors_text (cons e es) = error_text e ++ rest_text es

  rest_text : Errors → Text
  rest_text nil = []
  rest_text (cons e es) = codes "\n" ++ (error_text e ++ rest_text es)

-- `errors.Is(err, context.DeadlineExceeded)`: through `%w` and `errors.Join`. A timeout of package
-- net says yes to it.
unfoldable mutual
  pub is_deadline : Error → Bool
  is_deadline deadline_exceeded = true
  is_deadline (net_error _ timeout) = timeout
  is_deadline (wrapped _ e) = is_deadline e
  is_deadline (joined es) = any_deadline es
  is_deadline (plain _) = false
  is_deadline canceled = false
  is_deadline (dns_error _) = false

  any_deadline : Errors → Bool
  any_deadline nil = false
  any_deadline (cons e es) = is_deadline e || any_deadline es

-- `os.IsTimeout`: the error's own method `Timeout`.
abbrev pub os_is_timeout : Error → Bool
os_is_timeout deadline_exceeded = true
os_is_timeout (net_error _ timeout) = timeout
os_is_timeout (dns_error d) = d.is_timeout
os_is_timeout _ = false

unfoldable pub is_timeout : Error → Bool
unfolding is_deadline
is_timeout e = is_deadline e || os_is_timeout e

-- `(*DNSError).Temporary`.
abbrev pub temporary : DnsError → Bool
temporary d = d.is_timeout || d.is_temporary

-- The type assertion looks at the error itself, not at what it wraps.
unfoldable pub is_temporary : Error → Bool
is_temporary (dns_error d) = temporary d
is_temporary _ = false

-- `mergo.Merge` of package dario.cat/mergo; `none` is its error.
abbrev pub Merge : Type 0
Merge = DnsError → DnsError → Option DnsError

abbrev pub or_text : Text → Text → Text
or_text [] s = s
or_text (c ∷ t) s = c ∷ t

-- What `mergo.Merge` documents: a field that is empty in `dst` takes the value of `src`.
abbrev pub filled : DnsError → DnsError → DnsError
filled dst src = record {
  err = or_text dst.err src.err;
  name = or_text dst.name src.name;
  server = or_text dst.server src.server;
  is_timeout = dst.is_timeout || src.is_timeout;
  is_temporary = dst.is_temporary || src.is_temporary;
  is_not_found = dst.is_not_found || src.is_not_found;
}

-- `return nil, extendDNSError(dst, src)`: the extended error, or the panic.
unfoldable pub extend_dns_error {ℓ} : {A : Type ℓ} → Merge → DnsError → DnsError → Result A
extend_dns_error merge dst src = elim (merge dst src) [ some d ↦ err (dns_error d) | none ↦ panic ]
