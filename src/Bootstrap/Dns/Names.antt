-- ===== src/Bootstrap/Dns/Names.antt =====
-- The loop that reads names of DNS (src/bootstrap/resolver.rs).
use dsearch.Base.{
  ℕ, zero, suc, ◌+◌, ◌*◌, ◌-◌, ◌%◌, ◌≤◌, ◌≡◌, refl, inl, inr, Bool, true, false, ◌||◌, some, List,
  [], Text, ltb, leb, ◌==◌, length, arith, Bool-cases, Option-cases, is_some,
}
use dsearch.Bootstrap.Dns.{byte_at, read_name, name_fuel, read_dns_name}

-- What is left of the packet for a name that has not followed a pointer.
abbrev ahead : List ℕ → ℕ → Bool → ℕ
ahead bytes offset true = 0
ahead bytes offset false = length bytes - offset

module _ (from_utf8_lossy : List ℕ → Text) where
  read_name_total :
      (fuel : ℕ) (bytes : List ℕ) (offset : ℕ) (jumped : Bool) (visited : ℕ) (name : Text)
      → visited ≤ 21
      → (21 - visited) * 2 + ahead bytes offset jumped + 1 ≤ fuel
      → is_some (read_name from_utf8_lossy fuel bytes offset jumped visited name) ≡ true
  unfolding read_name
  read_name_total zero bytes offset jumped visited name few enough = absurd (omega arith)
  read_name_total (suc fuel) bytes offset jumped visited name few enough =
      let len = byte_at bytes offset in
      let pointer = len % 64 * 256 + byte_at bytes (offset + 1) in
      elim (Bool-cases (leb (length bytes) offset || (len == 0))) [
        | inl a ↦ rw (a, read_name) refl
        | inr a ↦ elim (Bool-cases (leb 192 len)) [
          | inl b ↦
              elim (Bool-cases
                (leb (length bytes) (offset + 1) || leb (length bytes) pointer || ltb 20 visited)) [
                  | inl c ↦ rw (a, b, c, read_name) refl
                  | inr c ↦
                      rw (a, b, c, read_name)
                        (read_name_total fuel bytes pointer true (visited + 1) name (ground arith)
                          (ground arith))
                ]
          | inr b ↦ elim (Bool-cases (ltb (length bytes) (offset + 1 + len))) [
            | inl c ↦ rw (a, b, c, read_name) refl
            | inr c ↦ elim (Bool-cases jumped) [
              | inl j ↦ elim (Bool-cases (leb 20 visited)) [
                | inl d ↦ rw (a, b, c, j, d, read_name) refl
                | inr d ↦
                    let enough' : (21 - visited) * 2 + 0 + 1 ≤ suc fuel = rw j at enough in
                    rw (a, b, c, j, d, read_name)
                      (read_name_total fuel bytes (offset + 1 + len) true (visited + 1) _
                        (ground arith) (ground arith))
              ]
              | inr j ↦
                  let enough' : (21 - visited) * 2 + (length bytes - offset) + 1 ≤ suc fuel =
                    rw j at enough in
                  rw (a, b, c, j, read_name)
                    (read_name_total fuel bytes (offset + 1 + len) false visited _ few
                      (ground arith))
            ]
          ]
        ]
      ]

  -- The fuel of a name is enough: the loop over a packet, from any place of it, ends with a name,
  -- also where its pointers form a circle.
  pub read_dns_name_total :
      (bytes : List ℕ) (offset : ℕ)
      → read_name from_utf8_lossy (name_fuel bytes) bytes offset false 0 []
        ≡ some (read_dns_name from_utf8_lossy bytes offset)
  unfolding read_dns_name
  read_dns_name_total bytes offset =
      let ends =
        read_name_total (name_fuel bytes) bytes offset false 0 [] (omega arith) (omega arith) in
      elim (Option-cases (read_name from_utf8_lossy (name_fuel bytes) bytes offset false 0 [])) [
        | inl e ↦ absurd (cc (rw e at ends))
        | inr (name, e) ↦ rw (e, read_dns_name) refl
      ]
