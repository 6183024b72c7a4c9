-- ===== src/Http/Keeps.antt =====
-- The steps of `src/http_handler.rs` that read nothing from the client.
use shoes_on_shuttle.Common.{
  none, some, Bool, true, false, Option, Bytes, refl, drop, take, length, ◌≡◌, ◌-◌, if◌then◌else◌,
  ltb, leb,
}
use shoes_on_shuttle.Http.Server.{location_at, or_fail, location_of, connect_target}
use shoes_on_shuttle.Stream.{
  expect, lift, Result, success, failure, Io, Stream, pure, ensure, ◌>>=◌, ◌>>◌, ErrorKind,
}
use shoes_on_shuttle.Address.{NetLocation, split_at_first, address_from}
use shoes_on_shuttle.Net.Parse.{parse_uint}
use mathlib.Core.Path.{subst}
use shoes_on_shuttle.Stream.Post.{Post, then-Post}
use Prim.Native.String.{String}

-- A step that leaves what comes from the peer as it is.
abbrev pub Keeps : {A : Type 0} → Io A → Type 0
Keeps m = (s : Stream) → Post (λ a s'. s' ≡ s) (m s)

pub bind-Keeps :
    {A B : Type 0} (m : Io A) (f : A → Io B) → Keeps m → ((a : A) → Keeps (f a)) → Keeps (m >>= f)
bind-Keeps m f h k s =
    then-Post (λ a s'. s' ≡ s) (λ b s'. s' ≡ s) (m s) f (h s)
      (λ a s' e. subst (λ (t : Stream). Post (λ b s''. s'' ≡ t) (f a s')) e (k a s'))

pub or_fail-Keeps :
    {A : Type 0} (kind : ErrorKind) (message : String) (o : Option A)
    → Keeps (or_fail kind message o)
or_fail-Keeps kind message (some a) s = refl
or_fail-Keeps kind message none s = tt

pub expect-Keeps : {A : Type 0} (o : Option A) → Keeps (expect o)
expect-Keeps (some a) s = refl
expect-Keeps none s = tt

pub lift-Keeps : {A : Type 0} (r : Result A) → Keeps (lift r)
lift-Keeps (success a) s = refl
lift-Keeps (failure e) s = tt

pub ensure-Keeps : (b : Bool) (kind : ErrorKind) (message : String) → Keeps (ensure b kind message)
ensure-Keeps true kind message s = refl
ensure-Keeps false kind message s = tt

pub location_of-Keeps : (domain_name port_text : Bytes) → Keeps (location_of domain_name port_text)
location_of-Keeps domain_name port_text =
    bind-Keeps (or_fail ErrorKind.invalid_data "invalid port" (parse_uint 65535 port_text))
      (λ port. lift (address_from domain_name) >>= λ address.
        pure (record { address = address; port = port }))
      (or_fail-Keeps ErrorKind.invalid_data "invalid port" (parse_uint 65535 port_text))
      (λ port.
        bind-Keeps (lift (address_from domain_name))
          (λ address. pure (record { address = address; port = port }))
          (lift-Keeps (address_from domain_name)) (λ address s. refl))

pub connect_target-Keeps : (line : Bytes) → Keeps (connect_target line)
unfolding connect_target
connect_target-Keeps line =
    let slice =
      if leb 17 (length line) then some (take (length line - 17) (drop 8 line)) else none in
    let message : String = "Invalid address format" in
    let rest : Bytes × Bytes → Io NetLocation = λ parts.
      ensure (ltb 0 (length parts.1)) ErrorKind.invalid_input message
      >> location_of parts.0 parts.1 in
    bind-Keeps (expect slice)
      (λ address. or_fail ErrorKind.invalid_input message (split_at_first b':' address) >>= rest)
      (expect-Keeps slice)
      (λ address.
        bind-Keeps (or_fail ErrorKind.invalid_input message (split_at_first b':' address)) rest
          (or_fail-Keeps ErrorKind.invalid_input message (split_at_first b':' address))
          (λ parts.
            bind-Keeps (ensure (ltb 0 (length parts.1)) ErrorKind.invalid_input message)
              (λ _. location_of parts.0 parts.1)
              (ensure-Keeps (ltb 0 (length parts.1)) ErrorKind.invalid_input message)
              (λ _. location_of-Keeps parts.0 parts.1)))

pub location_at-Keeps :
    (address : Bytes) (parts : Option (Bytes × Bytes)) → Keeps (location_at address parts)
location_at-Keeps address (some parts) = location_of-Keeps parts.0 parts.1
location_at-Keeps address none =
    bind-Keeps (lift (address_from address))
      (λ parsed. pure (record { address = parsed; port = 80 })) (lift-Keeps (address_from address))
      (λ parsed s. refl)
