-- ===== src/Lib.antt =====
-- my-tracks: a self-hosted location tracking server for OwnTracks devices, which connect to its
-- embedded MQTT broker; a companion service, domesti-bot, asks it for locations over HTTP.
--
-- The parts, and the files that model them:
--
-- Topic, Topic/Parsing (app/mqtt/handlers.py: parse_owntracks_topic; app/mqtt/commands.py:
-- get_command_topic, parse_device_id). OwnTracks topics, with Text for Python's split, join and strip.
--
-- Auth and its children (app/mqtt/auth.py). Auth holds the checks of a user, a password, a certificate
-- and a topic; Auth/Pattern the regular expression of topics, written out as a matcher; Auth/Session
-- the broker's hooks. A session is a record of what the hooks read and set. Django's users are a list,
-- and its password check is an argument. `_authenticate_tls` reads the certificate over and over until
-- a deadline: the reading is a function of the number of the query, the clock advances by one poll with
-- each sleep, and `wait_for_cn` runs on fuel 8, one more than the polls that fit before the deadline;
-- Auth/Session/Identity shows that more fuel changes nothing.
--
-- Numbers, Extraction, Handlers and their children (app/mqtt/handlers.py). Numbers holds Python's `int`, `float`
-- and `datetime.fromtimestamp` on JSON values, with the exceptions that they raise; Extraction what is read
-- from a message, each value of a dictionary written as the Python value that the source puts there, so
-- that `float(v)` and `str(v)[:n]` stand unevaluated; Extraction/Columns the columns of app/models.py that
-- the optional fields go to. Handlers holds the callbacks and the dispatch of a message: json.loads is an
-- argument, and a callback is the number of a registered function, with an argument that says which calls
-- raise an exception. A callback does not write to its argument, and none is cancelled while it runs.
--
-- Json, Commands and its children (app/mqtt/commands.py). Commands are dictionaries; a client of the
-- MQTT library is which publishing method it has and what its n-th call comes to: publish() may raise, or
-- publish and be confirmed, or publish and raise behind it. amqtt's own broker, which the program uses, has
-- published nothing where its call raises.
--
-- Requests and its children (app/domesti_location_request.py). Requests/Settings holds the cooldowns
-- over the fields of DomestiBotConfig that this code uses (app/models.py); Requests/Effects the world of
-- a request, which is the stored row, the clock as the sequence of the instants that its readings give,
-- the broker and what has been published, and actions over it that return or raise a
-- LocationRequestError. `publish_each` writes the column of device stamps from the object that the
-- request holds, not from the stored row, as the code does.
--
-- Queue and its children (app/domesti_location_request_queue.py). Queue/State holds the queue's fields and
-- where the worker thread stands; Queue/Steps what can happen, one step at a time in any order: an enqueue
-- (the part under the lock, with the checks before it), the three stages of the worker's loop, its start
-- and its stop, and any change of the world outside. Each step may see other accounts and another
-- configuration. A subscript of a missing key counts as an answer with status 500.
--
-- Latest and its children (app/location_report.py, app/location_latest.py). The tables of locations and
-- devices are lists of rows; `order_by(...).first()` is the head of an insertion sort by the report's
-- order, and a new row is put in front of the others.
--
-- Devices, Saving, Relay, Geofences, Transitions, Broadcasts, Plugin and their children (app/mqtt/plugin.py and
-- app/ws_broadcast.py, with the tables of app/models.py). Devices holds the tables, with the pointers to the
-- latest locations in those of Latest, and Devices/Updates what a location changes in its device's row. Saving
-- is save_location_to_db and save_lwt_to_db, Geofences save_waypoints_to_db, Transitions
-- save_transition_to_db with the mails that it attempts (that send_transition_email sends
-- nothing without a mail server's settings is left out), Relay the passing on of a location request, Broadcasts the WebSocket
-- groups. Plugin puts them together: the cache of TLS identities and the broker's hooks, with the callbacks
-- that the message handler calls; a sequence of what the broker reports is a list. Whether the database takes
-- a row, the uuid5 that names a waypoint, and what the broker library knows of a client are arguments; an
-- exception ends a function with what it has written in place. A call runs to its end before another one
-- writes. The relay to domesti-bot is here the list of the locations that are
-- handed to it.
--
-- Webhook and Webhook/Deliveries (app/domesti_relay.py and that part of app/domesti_bot.py) are what happens
-- to such a location: its fingerprint, its payload, the request and the log of deliveries. The answers to the
-- requests are a sequence; the printing of instants and float() of a decimal are arguments. The configuration
-- is read once, and nobody else writes it in between.
--
-- Friends and its children (FriendRequestViewSet, FriendViewSet, DeviceShareViewSet of app/views.py, with the
-- tables of app/models.py). Friends holds the requests between users, Friends/Shares the removal of a friend,
-- the shares and any sequence of requests to the handlers. A handler gives the status of its response and the
-- tables after it; one runs to its end before the next, and the keys in the address are numbers. Keys of rows
-- and names of users and of an owner's devices are unique, so that get() is the first row that fits.
-- Friends/Visible is the list of devices that a user may look at, and Friends/Audience the group that a
-- connection joins (app/consumers.py).
--
-- Pairing and its children (app/domesti_bot.py, app/domesti_relay_keys.py, app/domesti_bot_auth.py, and the
-- fields and methods of DomestiBotConfig that they use). A pairing is staged, activated or aborted, or, in
-- protocol version 1, made at once (Pairing/Operations); the keyed digest and the cipher are a record of
-- functions. Pairing/Keys holds which keys are accepted. The validation of URLs is an argument: its
-- result, or none where it raises an exception.
--
-- Display, Display/Escape (app/location_display.py). The escaping of values in log lines.
--
-- The parts meet as in the program: the hooks use the topic matcher; a request publishes with the
-- command publisher, and the queue runs requests; the plugin, the broadcasts and the views of friends work on
-- one table of devices and one of shares, each with its own record of what else it needs.
--
-- Not modelled: log lines; JSON printing and parsing; the rest of the HTTP layer (app/views.py, app/serializers.py,
-- app/domesti_bot_api.py), certificates (app/pki.py), the user interface (web_ui) and
-- the deployment scripts. Date and time are microseconds; a stored ISO text stands for its instant.
mod Base
pub mod Text
pub mod Topic
pub mod Auth
pub mod Numbers
pub mod Extraction
pub mod Handlers
pub mod Json
pub mod Commands
pub mod Requests
pub mod Queue
pub mod Latest
pub mod Devices
pub mod Saving
pub mod Relay
pub mod Geofences
pub mod Transitions
pub mod Broadcasts
pub mod Plugin
pub mod Webhook
pub mod Friends
pub mod Pairing
pub mod Display
mod Tests
