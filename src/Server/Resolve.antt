-- ===== src/Server/Resolve.antt =====
-- server.py: `SysCommands.resolve_message_name`.
use ros_tcp_endpoint.Prelude.{List, [], ◌∷◌, ◌++◌, Text, codes, Option, none, some}
use ros_tcp_endpoint.Prelude.Result.{
  Exc, Result, ok, err, index_error, key_error, attribute_error, import_error, ◌>>=◌,
}
use ros_tcp_endpoint.Platform.{Platform}
use ros_tcp_endpoint.Text.{split}

-- names[1]
unfoldable pub second : Text × List Text → Result Text
second (_, []) = err index_error
second (_, name ∷ _) = ok name

abbrev or_raise {ℓ} : {A : Type ℓ} → Exc → Option A → Result A
or_raise e none = err e
or_raise e (some a) = ok a

-- The `try` block: the class, or `none` if the last attribute is `None`.
unfoldable pub find_class : (P : Platform) → Text → Text → Result (Option P.Class)
unfolding split second
find_class P name extension = do
  let names = split b'/' name
  class_name ← second names
  loaded ← P.import_module (names.0 ++ codes "." ++ extension)
  top ← or_raise key_error (P.sys_modules names.0)
  part ← or_raise attribute_error (P.get_attribute top extension)
  object ← or_raise attribute_error (P.get_attribute part class_name)
  ok (P.as_class object)

-- except (IndexError, KeyError, AttributeError, ImportError): return None
unfoldable pub handle_resolve : {A : Type 0} → Result (Option A) → Result (Option A)
handle_resolve (err index_error) = ok none
handle_resolve (err key_error) = ok none
handle_resolve (err attribute_error) = ok none
handle_resolve (err import_error) = ok none
handle_resolve r = r

unfoldable pub resolve_message_name : (P : Platform) → Text → Text → Result (Option P.Class)
unfolding find_class handle_resolve
resolve_message_name P name extension = handle_resolve (find_class P name extension)
