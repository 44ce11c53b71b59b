-- ===== src/Event/Kinds.antt =====
-- The enumerations of src/wyreplumber/runtime/events.py.
use wyreplumber.Prelude.{String, Bool, true, false, Option, none, some, str_eq, if◌then◌else◌}

pub data RuntimeEventKind : Type 0 where
  object_added object_removed object_changed : RuntimeEventKind
  parameter_changed metadata_changed default_changed connection_changed : RuntimeEventKind
  discontinuity resnapshot_required : RuntimeEventKind

pub data RuntimeObjectKind : Type 0 where
  device node port link metadata parameter profile route : RuntimeObjectKind
  defaults connection runtime : RuntimeObjectKind

-- `RuntimeEventKind(text)`
unfoldable pub event_kind : String → Option RuntimeEventKind
event_kind s =
    if str_eq s "object_added"
    then some object_added
    else if str_eq s "object_removed"
    then some object_removed
    else if str_eq s "object_changed"
    then some object_changed
    else if str_eq s "parameter_changed"
    then some parameter_changed
    else if str_eq s "metadata_changed"
    then some metadata_changed
    else if str_eq s "default_changed"
    then some default_changed
    else if str_eq s "connection_changed"
    then some connection_changed
    else if str_eq s "discontinuity"
    then some discontinuity
    else if str_eq s "resnapshot_required"
    then some resnapshot_required
    else none

-- `RuntimeObjectKind(text)`
unfoldable pub object_kind : String → Option RuntimeObjectKind
object_kind s =
    if str_eq s "device"
    then some device
    else if str_eq s "node"
    then some node
    else if str_eq s "port"
    then some port
    else if str_eq s "link"
    then some link
    else if str_eq s "metadata"
    then some metadata
    else if str_eq s "parameter"
    then some parameter
    else if str_eq s "profile"
    then some profile
    else if str_eq s "route"
    then some route
    else if str_eq s "defaults"
    then some defaults
    else if str_eq s "connection"
    then some connection
    else if str_eq s "runtime"
    then some runtime
    else none

abbrev pub is_resnapshot_kind : RuntimeEventKind → Bool
is_resnapshot_kind discontinuity = true
is_resnapshot_kind resnapshot_required = true
is_resnapshot_kind _ = false

abbrev pub is_added : RuntimeEventKind → Bool
is_added object_added = true
is_added _ = false

abbrev pub is_removed : RuntimeEventKind → Bool
is_removed object_removed = true
is_removed _ = false

-- `kind.value`
unfoldable pub kind_text : RuntimeObjectKind → String
kind_text device = "device"
kind_text node = "node"
kind_text port = "port"
kind_text link = "link"
kind_text metadata = "metadata"
kind_text parameter = "parameter"
kind_text profile = "profile"
kind_text route = "route"
kind_text defaults = "defaults"
kind_text connection = "connection"
kind_text runtime = "runtime"
