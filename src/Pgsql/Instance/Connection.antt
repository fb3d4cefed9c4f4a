-- ===== src/Pgsql/Instance/Connection.antt =====
-- src/plugins/storage/pgsql_pool.c: for which settings the string for `PQconnectdb` fits its buffer.
use netvizd.Common.{
  ◌+◌, ◌≤◌, ◌≡◌, refl, ap, ◌∙◌, ◌↔◌, Bool, true, false, some, arith, length, if◌then◌else◌,
}
use netvizd.Common.Int.{ℤ}
use netvizd.Common.Text.{Text, codes}
use netvizd.Pgsql.Statements.{print_statement, join}
use netvizd.Pgsql.Statements.Fit.{length-join, whole_iff}
use netvizd.Pgsql.Instance.{PgsqlData, conninfo_parts, pgsql_connect}

length-mode : (b : Bool) → length (if b then codes "require" else codes "disable") ≡ 7
length-mode true = refl
length-mode false = refl

some-inj : {s t : Text} → some s ≡ some t → s ≡ t
some-inj e = cc

length-conninfo :
    (print_int : ℤ → Text) (host user pass db : Text) (me : PgsqlData)
    → length (join (conninfo_parts print_int host user pass db me))
      ≡ length host
        + length user
        + length pass
        + length db
        + length (print_int me.port)
        + length (print_int me.ctimeout)
        + 68
length-conninfo print_int host user pass db me =
    length-join (conninfo_parts print_int host user pass db me) ∙ omega (arith, length-mode me.ssl)

-- For an instance with a host, a user, a password and a database: the connection gets all of its
-- parameters exactly if these four and the two numbers have at most 187 characters together. A longer
-- string loses its end.
pub pgsql_connect-whole :
    (print_int : ℤ → Text) (host user pass db : Text) (me : PgsqlData)
    → (pgsql_connect print_int (some host) (some user) (some pass) (some db) me
        ≡ some (join (conninfo_parts print_int host user pass db me)))
      ↔ (length host
            + length user
            + length pass
            + length db
            + length (print_int me.port)
            + length (print_int me.ctimeout)
          ≤ 187)
unfolding pgsql_connect print_statement
pgsql_connect-whole print_int host user pass db me =
    let s = join (conninfo_parts print_int host user pass db me) in
    let (a, b) =
      whole_iff s
        (length host
          + length user
          + length pass
          + length db
          + length (print_int me.port)
          + length (print_int me.ctimeout))
        68 (length-conninfo print_int host user pass db me) (omega arith) in
    (λ e. a (some-inj e), λ h. ap (λ (t : Text). some t) (b h))
