-- ===== src/Lib.antt =====
-- A development on the management daemon of a home controller: it finds the devices of its board
-- in a platform description, and shows them in Home Assistant over MQTT. Its parts, from the
-- bottom up:
--
-- Utils models the fixed maps of src/common/utils (StaticMap, Mapper, EnumMapper), in
-- Utils.Logging which logger a name leads to (src/common/logger) and, in Utils.Streams, how a
-- JSON file is read. Scheduler models src/common/scheduler: Scheduler.Tasks the tasks and
-- their time stamps, Scheduler.TaskStore the interface ITaskStore and what a store promises,
-- Scheduler.FileTaskStore the store that keeps its tasks in a file, Scheduler.Policy the class
-- Scheduler over any store, Scheduler.Running its runs as timers run out or fail. Bus models
-- src/common/event and src/common/command: Bus.Ids the id generators, Bus.Events
-- AsyncEventBus, Bus.Typed its events and handlers by their types, Bus.Commands
-- AsyncCommandDispatcher. Device models the device tree (Device.Tree:
-- src/main_board/devicetree.cpp) and the inventories (Device.Registry: inventory.hpp and
-- device_register.hpp of src/device/include/device). Board models the main board and its
-- indicators (src/device, src/main_board), Board.Leds the LEDs under them, Board.Hardware the
-- board's identity and its restart, Board.Sensors the temperature sensors. Poller models
-- src/poller: the pollers of the devices (Poller.Devices) and the service that runs them
-- (Poller.Service). Mqtt models src/home_assistant_v2: Mqtt.Client is AsyncMqttClient,
-- Mqtt.Entity the class Entity, Mqtt.Cover, Mqtt.Button, Mqtt.Sensor and Mqtt.BinarySensor the
-- entities made from it, Mqtt.Config the class EntityConfig, Mqtt.Error the errors,
-- Mqtt.Packet the packets, Mqtt.Traffic what comes of the packets that an endpoint gives.
-- Adapter models src/home_assistant_adapter: Adapter.Lifecycle is EntityAdapter,
-- Adapter.Identity DeviceIdentityProvider, Adapter.Hatch the hatch as a cover,
-- Adapter.Creation the creation of the hatch's and the sensor's adapters, Adapter.Sensor the
-- sensor's over its entity, Adapter.Factory EntityFactory, Adapter.MainBoard the board's
-- indicators and its restart button, Adapter.Handlers the handlers of device events. Platform
-- models src/main_board/include/main_board/platform and src/main_board/pdtree.cpp:
-- Platform.Pdtree the description of the platform, Platform.Providers and Platform.Discovery
-- what is made of its entries, Platform.Builder the loaders and their run. App models src/app:
-- App.Config the configuration, App.Logger the loggers that are set up, App.HomeAssistant the
-- subscriptions of the event handlers, App.MainBoardInit the board and its devices,
-- App.Serving the event handlers at work on what the start has spawned, App.Main the program,
-- and App.Attached a hatch or a sensor in it with its poller, the bus, the event handler and
-- the adapters. Base holds what they share, Examples the theorems at concrete inputs. A child
-- module holds the lemmas on its parent, and is named for what they are about, or Laws. A
-- class is a record of its fields and its methods are functions of the same names; where one
-- name would stand for several, it has the class's name before it (cover_receive is
-- Cover::async_receive, hatch_created the HatchEventHandler's operator() on DeviceCreated_t).
--
-- How the parts meet: App.Main reads the configuration, sets up the loggers, subscribes the
-- handlers, and reads the platform's description, whose entries become loaders; each loader
-- registers a device, gives it a poller and a place under the board in the device tree, and an
-- event is published; the handler of the event (Adapter.Handlers) makes the entity and starts
-- its adapter (Adapter.Lifecycle), which connects and configures the entity (Mqtt.Entity)
-- through the client (Mqtt.Client, given to the entities by Mqtt.Bound); a poller publishes an
-- event when the device has changed, and the adapter sends the new state. The tables that
-- loading changes are the record System of Platform.
--
-- How the code is written here. An operation that changes its object takes the object's state
-- and returns the new one. Code that may throw returns an Outcome (Base.Outcome): done, thrown,
-- or stuck for a loop that used up its fuel. A coroutine is the sequence of its steps, and a
-- wait on a timer one of them; other coroutines do not run between. An exception of a coroutine
-- that was spawned leaves the loop of the executor; App.Main runs those of the start, and of
-- the coroutines that follow, the polls and the run loops of the entities, App.Attached and
-- Adapter.Hatch.Served take one device at a time. What boost::asio, boost::system and
-- async_mqtt do is the parameter Endpoint of Mqtt.Client, and what an entity uses of its client
-- the parameter EntityClient of Mqtt.Entity. The texts of JSON, the hashes of the standard
-- library, the formatting of numbers, the generator of uuids, the parser of a time of day, the
-- parser of JSON, the reading of words and numbers from a text, and the files with their
-- contents are parameters as well. What C++ leaves undefined, a call through a null pointer, is
-- a parameter too. Ids and other unsigned numbers keep their wrap-around; times are in
-- nanoseconds since the epoch and are not negative, nor are the numbers of a configuration. A
-- std::function that was moved from is empty. Values of system errors are those of Linux. An
-- assert is taken as compiled out. An attribute of a LED gives back the number that was written
-- last. The library spdlog is the parameter Spdlog; the calls that give a message to a logger
-- are left out, and of an error's text what the source gives, without what the error type adds
-- to it.
--
-- Bounds and fuel: async_receive and its like run on rounds, one for each packet; the theorems
-- on them ask for one round more than the packets that they name. The reconnecting client runs
-- on fuel, one unit for each attempt; Mqtt.Client.Retries says when more than max_attempts units
-- are enough, and when no amount is. A file is read with a unit of fuel for each block of 4096
-- bytes; Utils.Streams.Laws says how many are enough, and that none are for a file that cannot
-- be opened.
--
-- Not modelled: the texts that are made for log messages, the helpers that start coroutines and
-- wrap executors (src/common/coro, src/common/executor), the provider TempSensorProvider, which
-- only throws and is used nowhere, and the classes Disposable and Client of src/common/utils,
-- which are included nowhere and name types that the repository does not have.
pub mod Base
pub mod Utils
pub mod Device
pub mod Board
pub mod Bus
pub mod Mqtt
pub mod Scheduler
pub mod Poller
pub mod Adapter
pub mod Platform
pub mod App
pub mod Examples
