-- ===== src/Tests/Demo.antt =====
-- A platform whose messages are their bytes and whose JSON is always one object, and states over it.
use ros_tcp_endpoint.Prelude.{
  ℕ, true, false, [], ◌∷◌, Bytes, codes, none, some, text_eq, if◌then◌else◌,
}
use ros_tcp_endpoint.Prelude.Result.{ok}
use ros_tcp_endpoint.Platform.{Platform}
use ros_tcp_endpoint.Json.{obj, field, end, int}
use ros_tcp_endpoint.Struct.Int.{pos}
use ros_tcp_endpoint.Pauser
use ros_tcp_endpoint.ZeroCopy.{ZeroCopyBuffer}
use ros_tcp_endpoint.Sender.{Sender}
use ros_tcp_endpoint.Server.{TcpServer}

abbrev pub demo : Platform
demo = record {
  Message = Bytes;
  Class = ℕ;
  serialize = λ m. ok m;
  deserialize = λ b c. ok b;
  request_class = λ c. c;
  response_class = λ c. c;
  construct = λ c. ok [];
  Value = Bytes;
  field_names = λ m. codes "data" ∷ [];
  read_field = λ m f. if text_eq f (codes "data") then m else [];
  write_field = λ m f v. if text_eq f (codes "data") then v else m;
  valid_name = λ t. true;
  dumps = λ j. codes "{}";
  loads = λ t. ok (obj (field (codes "srv_id") (int (pos 1001)) end));
  raw_decode = λ t. ok (obj end);
  Object = ℕ;
  import_module = λ t. ok tt;
  sys_modules = λ t. some 1;
  get_attribute = λ o t. some 2;
  as_class = λ o. some 7;
  show_keys = λ ks. [];
}

abbrev pub unmapped : ZeroCopyBuffer
unmapped = record {
  buffer_size = 8;
  threshold = 4;
  enabled = false;
  mmap_file = none;
  mmap_buffer = none;
  write_offset = 0;
}

-- A connected sender: queue 1 is active and empty.
abbrev pub connected : Sender demo
connected = record {
  sender_id = 2;
  queue = some 1;
  queues = λ _. [];
  next_srv_id = 1001;
  services_waiting = [];
  pausers = λ _. Pauser.new;
  next_pauser = 0;
  topic_to_id = [];
  next_topic_id = 1;
  stream_slots = [];
  stream_event = false;
  zero_copy_buffer = unmapped;
  use_zero_copy = false;
}

-- With two topics numbered, one of them a stream.
abbrev pub numbered : Sender demo
numbered = record connected {
  topic_to_id = (codes "/chat", 1) ∷ (codes "/cam/image", 2) ∷ [];
  next_topic_id = 3;
}

-- With request 1001 waiting on pauser 0.
abbrev pub waiting : Sender demo
waiting = record connected {
  next_srv_id = 1002;
  services_waiting = (1001, 0) ∷ [];
  next_pauser = 1;
}

abbrev pub server : TcpServer demo
server = record {
  sender = connected;
  publishers_table = [];
  subscribers_table = [];
  ros_services_table = [];
  unity_services_table = [];
  pending_srv_id = none;
  pending_srv_is_request = false;
  node = record { calls = []; next_handle = 0 };
  topic_names_and_types = [];
  service_calls = [];
}
