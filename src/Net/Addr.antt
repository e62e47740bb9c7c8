-- ===== src/Net/Addr.antt =====
-- IP addresses, an `IPaddr` of include/ip.h: equality as `blkequ` over four bytes has it, the classes
-- of include/ip.h, and net_match.c of xinu/ipnet/common.
use Prim.Native.Nat.{bit_and}
use xinu_swd.Prelude.{ℕ, Bool, true, false, ◌&&◌, if◌then◌else◌, ◌==◌}
use mathlib.Core.Bool.{not}

pub record IpAddr : Type 0 where
  pub b0 : ℕ
  pub b1 : ℕ
  pub b2 : ℕ
  pub b3 : ℕ

unfoldable pub equ : IpAddr → IpAddr → Bool
equ a b = a.b0 == b.b0 && (a.b1 == b.b1 && (a.b2 == b.b2 && a.b3 == b.b3))

abbrev pub any_addr : IpAddr
any_addr = record { b0 = 0; b1 = 0; b2 = 0; b3 = 0 }

abbrev pub mask_all : IpAddr
mask_all = record { b0 = 255; b1 = 255; b2 = 255; b3 = 255 }

-- `IP_CLASSA` to `IP_CLASSE` look at the first byte.
abbrev pub in_class : ℕ → ℕ → IpAddr → Bool
in_class mask bits x = bit_and x.b0 mask == bits

-- Is `dst` on the net? `isbrc` is ip_isbrc.c, which looks at the addresses of the interfaces.
unfoldable pub netmatch : (IpAddr → Bool) → IpAddr → IpAddr → IpAddr → Bool → Bool
netmatch isbrc dst net mask islocal =
    if bit_and mask.b0 dst.b0 == net.b0
      && (bit_and mask.b1 dst.b1 == net.b1
          && (bit_and mask.b2 dst.b2 == net.b2 && bit_and mask.b3 dst.b3 == net.b3))
    then (if islocal then (if isbrc dst then not (equ mask mask_all) else true) else true)
    else false
