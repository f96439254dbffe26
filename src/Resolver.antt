-- ===== src/Resolver.antt =====
-- The interface `Resolver` of resolver.go. A call acts on a world `W`, which stands for the network,
-- the clock and the caller's context.
use getresolvd.Base.{List, [], ◌∷◌, ◌≡◌, ◌≢◌, ◌⊎◌, Member, Text}
use getresolvd.Netip.{Addr}
use getresolvd.Errors.{Error, to_errors, joined, Result, ok, err, panic}

-- `LookupNetIP(ctx, network, host)`.
abbrev pub Resolver : Type 0 → Type 0
Resolver W = Text → Text → W → Result (List Addr) × W

-- `return nil, errors.Join(errs...)`: with no error at all, `errors.Join` returns nil.
abbrev pub join_result : List Error → Result (List Addr)
join_result [] = ok []
join_result (e ∷ es) = err (joined (to_errors (e ∷ es)))

-- `if err == nil { return addrs, nil }`, and what follows it.
abbrev pub or_else :
    {W : Type 0}
    → Result (List Addr) × W
    → (Error → W → Result (List Addr) × W)
    → Result (List Addr) × W
or_else (ok a, w) k = (ok a, w)
or_else (err e, w) k = k e w
or_else (panic, w) k = (panic, w)

-- In some world, the resolver gives these addresses.
abbrev pub Gives : {W : Type 0} → Resolver W → Text → Text → List Addr → Type 0
Gives {W} r network host addrs = (w : W) × (w' : W) × (r network host w ≡ (ok addrs, w'))

-- One of the resolvers gives the addresses, or there is none of either.
abbrev pub OneGives : {W : Type 0} → List (Resolver W) → Text → Text → List Addr → Type 0
OneGives {W} rs network host addrs =
    ((r : Resolver W) × Member r rs × Gives r network host addrs) ⊎ ((rs ≡ []) × (addrs ≡ []))

-- The resolver never gives an error for the host.
abbrev pub NeverFails : {W : Type 0} → Resolver W → Text → Text → Type 0
NeverFails {W} r network host = (w w' : W) (e : Error) → r network host w ≢ (err e, w')
