-- ===== src/Config/Limits.antt =====
-- The ranges that `parseCommandLineArg` (src/simple-ntpd/config/config.cpp) keeps settings in.
use simple_ntpd.Common.{
  ℕ, ◌^◌, ◌≤◌, ◌<◌, arith, Bool, List, if-both, leb, leb→le, Bool-cases, inl, inr, ◌&&◌,
}
use simple_ntpd.Common.Int.{ℤ, pos, negsuc, to_unsigned}
use simple_ntpd.Common.Text.{Bytes}
use simple_ntpd.Config.{NtpConfig}
use simple_ntpd.Config.Fields.{
  TextField, FlagField, SignedField, CountField, BoundedField, ListField, set_text, set_flag,
  set_signed, set_count, set_bounded, set_list, worker_threads, max_packet_size, listen_address,
  enable_ipv6, max_connections, log_max_files, upstream_servers,
}
use simple_ntpd.Config.Settings.{set_port, set_stratum, set_level, set_within, level_of}

-- The ranges.
abbrev pub IsWithinLimits : NtpConfig → Type 0
IsWithinLimits c =
    (c.stratum ≤ 15)
    × (1 ≤ c.worker_threads)
    × (c.worker_threads ≤ 64)
    × (48 ≤ c.max_packet_size)
    × (c.max_packet_size ≤ 8192)
    × (c.listen_port < 2 ^ 16)

port_range : (n : ℤ) → to_unsigned (2 ^ 16) n < 2 ^ 16
unfolding to_unsigned
port_range (pos n) = omega arith
port_range (negsuc n) = omega arith

module _ (c : NtpConfig) (h : IsWithinLimits c) where
  pub set_text-IsWithinLimits : (f : TextField) (v : Bytes) → IsWithinLimits (set_text f v c)
  unfolding set_text
  set_text-IsWithinLimits listen_address v = h
  set_text-IsWithinLimits _ v = h

  pub set_flag-IsWithinLimits : (f : FlagField) (v : Bool) → IsWithinLimits (set_flag f v c)
  unfolding set_flag
  set_flag-IsWithinLimits enable_ipv6 v = h
  set_flag-IsWithinLimits _ v = h

  pub set_signed-IsWithinLimits : (f : SignedField) (n : ℤ) → IsWithinLimits (set_signed f n c)
  unfolding set_signed
  set_signed-IsWithinLimits max_connections n = h
  set_signed-IsWithinLimits _ n = h

  pub set_count-IsWithinLimits : (f : CountField) (n : ℕ) → IsWithinLimits (set_count f n c)
  unfolding set_count
  set_count-IsWithinLimits log_max_files n = h
  set_count-IsWithinLimits _ n = h

  pub set_list-IsWithinLimits : (f : ListField) (v : List Bytes) → IsWithinLimits (set_list f v c)
  unfolding set_list
  set_list-IsWithinLimits upstream_servers v = h
  set_list-IsWithinLimits _ v = h

  pub set_port-IsWithinLimits : (n : ℤ) → IsWithinLimits (set_port n c)
  set_port-IsWithinLimits n = let (s, w, x, p, q, _) = h in (s, w, x, p, q, port_range n)

  pub set_stratum-IsWithinLimits : (n : ℤ) → IsWithinLimits (set_stratum n c)
  unfolding set_stratum
  set_stratum-IsWithinLimits (pos n) = elim (Bool-cases (leb n 15)) [
    | inl small ↦ rw small (let (_, w, x, p, q, r) = h in (leb→le n 15 small, w, x, p, q, r))
    | inr large ↦ rw large h
  ]
  set_stratum-IsWithinLimits (negsuc n) = h

  pub set_level-IsWithinLimits : (n : ℤ) → IsWithinLimits (set_level n c)
  unfolding set_level
  set_level-IsWithinLimits (pos n) =
      if-both IsWithinLimits (leb n 4) (record c { log_level = level_of (pos n) }) c h h
  set_level-IsWithinLimits (negsuc n) = h

  pub set_within-IsWithinLimits : (f : BoundedField) (n : ℕ) → IsWithinLimits (set_within f n c)
  unfolding set_within set_bounded
  set_within-IsWithinLimits worker_threads n = elim (Bool-cases (leb 1 n && leb n 64)) [
    | inl inside ↦
        let (s, _, _, p, q, r) = h in
        rw inside (s, ground (arith, inside), ground (arith, inside), p, q, r)
    | inr outside ↦ rw outside h
  ]
  set_within-IsWithinLimits max_packet_size n = elim (Bool-cases (leb 48 n && leb n 8192)) [
    | inl inside ↦
        let (s, w, x, _, _, q) = h in
        rw inside (s, w, x, ground (arith, inside), ground (arith, inside), q)
    | inr outside ↦ rw outside h
  ]
