-- ===== src/Guest/Ports.antt =====
-- The address that runWinRMGuestPrep makes, as executeWinRM of controllers/guest_prep.go reads it.
use ahv_to_ove_operator.Base.{
  ℕ, ◌≡◌, refl, Bool, true, false, [], ◌∷◌, ◌++◌, Text, codes, contains, cut_at, strip_prefix, some,
  arith, append_assoc,
}
use ahv_to_ove_operator.Base.Decimals.{scan_int, skip_spaces, read_digits}
use ahv_to_ove_operator.Api.Errors.{ok}
use ahv_to_ove_operator.Guest.Ssh.{with_port}
use ahv_to_ove_operator.Guest.WinRm.{port_text, port_number, host_and_port}

cut_at-append :
    (h p : Text) → contains h (b':' ∷ []) ≡ false → cut_at b':' (h ++ b':' ∷ p) ≡ some (h, p)
unfolding cut_at contains strip_prefix
cut_at-append [] p h = refl
cut_at-append (c ∷ s) p h = ground (arith, cut_at-append s p)

scan_standard : (https : Bool) → scan_int 64 (port_text https) ≡ some (port_number https, [])
unfolding scan_int skip_spaces read_digits codes
scan_standard true = refl
scan_standard false = refl

with_port_added :
    (host port : Text)
    → contains host (codes ":") ≡ false
    → with_port host port ≡ host ++ b':' ∷ port
unfolding with_port codes
with_port_added host port h = rw h (simp append_assoc)

host_and_port_split :
    (s name port : Text) (n : ℕ) (https : Bool)
    → cut_at b':' s ≡ some (name, port)
    → scan_int 64 port ≡ some (n, [])
    → host_and_port s https ≡ ok (name, n)
unfolding host_and_port
host_and_port_split s name port n https e e' = rw (e, host_and_port) (rw e' refl)

-- A host that names no port is contacted under its own name, at port 5986 for HTTPS and at 5985
-- otherwise: executeWinRM reads this from the address that runWinRMGuestPrep makes.
pub host_and_port-with_port :
    (host : Text) (https : Bool)
    → contains host (codes ":") ≡ false
    → host_and_port (with_port host (port_text https)) https ≡ ok (host, port_number https)
unfolding codes
host_and_port-with_port host https h = rw (with_port_added host (port_text https) h) (
    host_and_port_split _ host (port_text https) _ https (cut_at-append host _ h)
      (scan_standard https))
