-- ===== src/Spa.antt =====
-- The SPA pod codec of src/wyreplumber/spa_pod.py and src/wyreplumber/_spa_pod_types.py.
pub mod Wire
pub mod Bytes
pub mod Kinds
pub mod Enums
pub mod Specs
pub mod Tables
pub mod Datum
pub mod Codec
pub mod Objects
pub mod Structs
pub mod Specialize
pub mod Parse
pub mod ParseObject
pub mod Decode
pub mod Loops
pub mod Fuel
pub mod Prepare
pub mod Infer
pub mod Build
pub mod Encode
pub mod Trees
pub mod RoundTrip
pub mod Scalars
pub mod Arrays
pub mod Numbers
pub mod Nested
pub mod Shape
pub mod Entries
pub mod Names
pub mod Access
pub mod Dictionaries
