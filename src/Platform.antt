-- ===== src/Platform.antt =====
-- What the endpoint calls and does not implement: rclpy, `json`, `importlib`, and how Python prints
-- a `dict_keys`. A value of `Platform` is an argument of the definitions that use it.
use ros_tcp_endpoint.Prelude.{Bool, Text, Bytes, Option, List}
use ros_tcp_endpoint.Prelude.Result.{Result}
use ros_tcp_endpoint.Json.{Json}

pub record Platform : Type 1 where
  -- a ROS message, or the request or response of a service; a message or service class
  pub Message : Type 0
  pub Class : Type 0
  -- rclpy.serialization.serialize_message and deserialize_message
  pub serialize : Message → Result Bytes
  pub deserialize : Bytes → Class → Result Message
  -- the attributes `Request` and `Response` of a service class
  pub request_class : Class → Class
  pub response_class : Class → Class
  -- calling a message class
  pub construct : Class → Result Message
  -- the values of a message's fields; the keys of get_fields_and_field_types(); getattr and setattr
  pub Value : Type 0
  pub field_names : Message → List Text
  pub read_field : Message → Text → Value
  pub write_field : Message → Text → Value → Message
  -- whether rclpy accepts a name of a topic or service
  pub valid_name : Text → Bool
  -- json.dumps, json.loads, and the value that json.JSONDecoder().raw_decode returns
  pub dumps : Json → Text
  pub loads : Text → Result Json
  pub raw_decode : Text → Result Json
  -- objects of Python: importlib.import_module, sys.modules, getattr; `None` is no class
  pub Object : Type 0
  pub import_module : Text → Result (Unit {0})
  pub sys_modules : Text → Option Object
  pub get_attribute : Object → Text → Option Object
  pub as_class : Object → Option Class
  -- str(d.keys()), from the keys in order
  pub show_keys : List Text → Text
