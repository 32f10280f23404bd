-- ===== src/Sandbox/Examples.antt =====
-- A write that climbs out of the workspace (rust/crates/vocoderd/src/machines/sandbox.rs).
use dsh_rs.Base.{◌≡◌, ◌↔◌, ◌⊎◌, refl, none, some}
use dsh_rs.Base.Text.{split, join}
use dsh_rs.Sandbox.{Mode, fence, check, allows, writable_roots_for}
use dsh_rs.Sandbox.Roots.{sort, dedup}
use dsh_rs.Sandbox.Fencing.{Writable, check_lem}
use dsh_rs.Sandbox.Paths.{components, resolve, component_eq, is_prefix}

-- A directory whose name only begins like the workspace's is outside.
neighbour :
    check "/var/tmp" (fence Mode.workspace_write "/work/app") "/work/app2/x" "x"
    ≡ some (record {
      mode = Mode.workspace_write;
      path = "x";
      reason =
          "it is outside the writable roots (/tmp, /var/tmp, /work/app), and no wider mode is available on this host";
    })
unfolding allows writable_roots_for sort dedup components split resolve component_eq is_prefix join
neighbour = refl

check_lem_example :
    (check "/var/tmp" (fence Mode.workspace_write "/work/app") "/work/app/../app/src/x.rs" "x.rs"
      ≡ none)
    ↔ ((Mode.workspace_write ≡ Mode.danger_full_access)
        ⊎ ((Mode.workspace_write ≡ Mode.workspace_write)
            × Writable "/var/tmp" "/work/app" "/work/app/../app/src/x.rs"))
check_lem_example =
    check_lem "/var/tmp" "/work/app" "/work/app/../app/src/x.rs" "x.rs" Mode.workspace_write refl
      refl
