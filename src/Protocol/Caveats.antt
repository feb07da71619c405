-- ===== src/Protocol/Caveats.antt =====
-- agent-mesh-protocol/src/caveats.rs: `Caveats` with `top`, `leq` and `meet`, axis by axis. One axis
-- is a scope or a count bound of the modules below; the laws of the lattice are in `Laws`, and what
-- caveats permit in `Semantics`.
pub mod Scope
pub mod CountBound
pub mod Laws
pub mod Semantics
mod Examples
use agent_mesh.Common.{ℕ, String, Bool, ◌&&◌, nat_eq, string_eq}

pub record Caveats : Type 0 where
  pub fs_read : Scope.Scope String
  pub fs_write : Scope.Scope String
  pub exec : Scope.Scope String
  pub net : Scope.Scope String
  pub max_calls : CountBound.CountBound
  pub valid_for_generation : Scope.Scope ℕ

abbrev pub top : Caveats
top = record {
  fs_read = Scope.top;
  fs_write = Scope.top;
  exec = Scope.top;
  net = Scope.top;
  max_calls = CountBound.top;
  valid_for_generation = Scope.top;
}

unfoldable pub leq : Caveats → Caveats → Bool
leq self other =
    Scope.leq self.fs_read other.fs_read
    && (Scope.leq self.fs_write other.fs_write
        && (Scope.leq self.exec other.exec
            && (Scope.leq self.net other.net
                && (CountBound.leq self.max_calls other.max_calls
                    && Scope.leq self.valid_for_generation other.valid_for_generation))))

unfoldable pub meet : Caveats → Caveats → Caveats
meet self other = record {
  fs_read = Scope.meet self.fs_read other.fs_read;
  fs_write = Scope.meet self.fs_write other.fs_write;
  exec = Scope.meet self.exec other.exec;
  net = Scope.meet self.net other.net;
  max_calls = CountBound.meet self.max_calls other.max_calls;
  valid_for_generation = Scope.meet self.valid_for_generation other.valid_for_generation;
}
