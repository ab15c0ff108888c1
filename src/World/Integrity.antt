-- ===== src/World/Integrity.antt =====
-- migrations/V001.sql, V002.sql and V003.sql: all keys of all tables, along the statements.
use appliance_registry.World.{Database}
use appliance_registry.Prelude.{true}
use appliance_registry.World.Invariants.{Kept, Kept-both}
use appliance_registry.World.Consistency.{HasKeys, Kept-HasKeys}
use appliance_registry.World.References.{
  HasTokens, Kept-HasTokens, HasCodes, Kept-HasCodes, HasLogins, Kept-HasLogins,
}

-- The tables keep their primary keys, their UNIQUE key and their foreign keys.
abbrev pub IsConsistent : Database → Type 0
IsConsistent db = HasKeys db × (HasTokens db × (HasCodes db × HasLogins db))

pub Kept-IsConsistent : Kept true IsConsistent
Kept-IsConsistent =
    Kept-both Kept-HasKeys (Kept-both Kept-HasTokens (Kept-both Kept-HasCodes Kept-HasLogins))
