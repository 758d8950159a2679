-- ===== src/Kortex/Route.antt =====
-- src/arm_route.cpp: whether the kernel would reach the arm over a link of its own. What the kernel
-- answers is a parameter; an address is the 32-bit number that its bytes spell.
use Prim.Native.Nat.{bit_and}
use Prim.Native.String.{◌++◌}
use kinova_gen3_driver.Prelude.{
  ℕ, Bool, not, Option, none, some, List, [], ◌∷◌, String, if◌then◌else◌, ◌==◌, ◌⊎◌, inl, inr,
}
use kinova_gen3_driver.Kortex.{Fault, invalid_argument}

-- An entry of `getifaddrs`; the address and the mask are absent where the loop skips the entry.
pub record Interface : Type 0 where
  pub name : String
  pub addr : Option ℕ
  pub mask : Option ℕ
  pub running : Bool

-- `inet_pton`, `inet_ntop`, the error of `socket`, the error of `connect` or `getsockname` or the
-- source address, and the error of `getifaddrs` or the list.
pub record Kernel : Type 0 where
  pub pton : String → Option ℕ
  pub ntop : ℕ → String
  pub no_socket : Option String
  pub source : ℕ → String ⊎ ℕ
  pub interfaces : String ⊎ List Interface

module _ (kernel : Kernel) where
  -- What is wrong with the interface that the source address is on; `none` is the empty string.
  unfoldable pub interface_problem : String → ℕ → ℕ → ℕ → Interface → Option String
  interface_problem ip arm addr mask a =
      if not (bit_and arm mask == bit_and addr mask)
      then some (
          "no direct route to "
          ++ (ip
              ++ (": it would leave via "
                  ++ (a.name
                      ++ (" (" ++ (kernel.ntop addr ++ "), whose network doesn't include it"))))))
      else if not a.running
      then some ("no link on " ++ (a.name ++ (", the interface for " ++ ip)))
      else none

  unfoldable pub find_problem : String → ℕ → ℕ → List Interface → Option String
  unfolding interface_problem
  find_problem ip arm src [] = none
  find_problem ip arm src (a ∷ rest) =
      let later = find_problem ip arm src rest in
      elim a.addr [
        | none ↦ later
        | some addr ↦ elim a.mask [
          | none ↦ later
          | some mask ↦ if not (addr == src) then later else interface_problem ip arm addr mask a
        ]
      ]

  unfoldable pub listed : String → ℕ → ℕ → String ⊎ List Interface → Option String
  unfolding find_problem
  listed ip arm src (inl e) = some ("route check: no interface list: " ++ e)
  listed ip arm src (inr ifs) = find_problem ip arm src ifs

  unfoldable pub routed : String → ℕ → String ⊎ ℕ → Option String
  unfolding listed
  routed ip arm (inl e) = some ("no route to " ++ (ip ++ (" (" ++ (e ++ ")"))))
  routed ip arm (inr src) = listed ip arm src kernel.interfaces

  unfoldable pub arm_route_problem : String → Fault ⊎ Option String
  unfolding routed
  arm_route_problem ip = elim (kernel.pton ip) [
    | none ↦ inl (invalid_argument ("the arm's address is not an IPv4 address: '" ++ (ip ++ "'")))
    | some arm ↦ elim kernel.no_socket [
      | some e ↦ inr (some ("route check: no socket: " ++ e))
      | none ↦ inr (routed ip arm (kernel.source arm))
    ]
  ]
